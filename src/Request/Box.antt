-- ===== src/Request/Box.antt =====
-- Request_Box::Delegate of src/telling/client_request.cpp: the promises of the queries. A promise is
-- its query's id; `settled` lists the promises that were set, with their values, the first one first.
use telling.Prelude.Table.{
  find, erase, update, entries_of, entries_of-erase, entries_of-update, entries_of-none,
}
use telling.Prelude.{
  ℕ, ◌≤◌, Bool, true, false, not, ◌&&◌, Option, none, some, List, [], ◌∷◌, ◌++◌, Bytes, ◌==◌,
  if◌then◌else◌, ◌≡◌, refl, arith, codes,
}
use telling.SendLoop.{AioResult}

-- A response, or an exception with its error and text.
pub data Value : Type 0 where
  response : Bytes → Value
  failed : AioResult → Bytes → Value

-- `pending` maps a query to its `sent`.
pub record Delegate : Type 0 where
  pub pending : List (ℕ × Bool)
  pub new_query_id : ℕ
  pub settled : List (ℕ × Value)

abbrev pub new_delegate : Delegate
new_delegate = record { pending = []; new_query_id = 0; settled = [] }

-- `emplace` leaves an entry that is there.
unfoldable pub emplace_unless : Option Bool → ℕ → List (ℕ × Bool) → List (ℕ × Bool)
emplace_unless none id t = (id, false) ∷ t
emplace_unless (some sent) id t = t

unfoldable pub emplace : ℕ → List (ℕ × Bool) → List (ℕ × Bool)
unfolding find emplace_unless
emplace id t = emplace_unless (find id t) id t

unfoldable pub async_prep : ℕ → Delegate → Delegate
unfolding emplace
async_prep id d = record d { pending = emplace id d.pending; new_query_id = id }

unfoldable pub async_sent : ℕ → Delegate → Delegate
unfolding update
async_sent id d = record d { pending = update id true d.pending }

-- `set_value` or `set_exception` of the promise that is found, and `erase`.
unfoldable pub settle : ℕ → (Bool → Value) → Option Bool → Delegate → Delegate
unfolding erase
settle id value none d = d
settle id value (some sent) d = record d {
  pending = erase id d.pending;
  settled = d.settled ++ (id, value sent) ∷ [];
}

unfoldable pub async_recv : ℕ → Bytes → Delegate → Delegate
unfolding find settle
async_recv id msg d = settle id (λ sent. response msg) (find id d.pending) d

unfoldable pub async_error : ℕ → AioResult → Delegate → Delegate
unfolding find settle
async_error id status d =
    settle id
      (λ sent. failed status (
        if sent
        then codes "Request could not be fulfilled."
        else codes "Request could not be sent."))
      (find id d.pending) d

-- `getFuture`: the future of the promise, or the exception "Inconsistent Query ID".
unfoldable pub claim : ℕ → Option Bool → Delegate → Option ℕ × Delegate
claim qid none d = (none, d)
claim qid (some sent) d =
    if qid == d.new_query_id then (some qid, record d { new_query_id = 0 }) else (none, d)

unfoldable pub get_future : ℕ → Delegate → Option ℕ × Delegate
unfolding find claim
get_future qid d = claim qid (find qid d.pending) d

-- The calls that other threads may make between `Request::request` and `getFuture`.
pub data Call : Type 0 where
  preps sents : ℕ → Call
  recvs : ℕ → Bytes → Call
  errors : ℕ → AioResult → Call

unfoldable pub call : Delegate → Call → Delegate
unfolding async_prep async_sent async_recv async_error
call d (preps id) = async_prep id d
call d (sents id) = async_sent id d
call d (recvs id msg) = async_recv id msg d
call d (errors id status) = async_error id status d

unfoldable pub calls : Delegate → List Call → Delegate
unfolding call
calls d [] = d
calls d (c ∷ cs) = calls (call d c) cs

-- Another query is prepared, or the query gets its own outcome.
abbrev pub disturbs : ℕ → Call → Bool
disturbs q (preps id) = true
disturbs q (sents id) = false
disturbs q (recvs id msg) = q == id
disturbs q (errors id status) = q == id

abbrev pub undisturbed : ℕ → List Call → Bool
undisturbed q [] = true
undisturbed q (c ∷ cs) = not (disturbs q c) && undisturbed q cs

abbrev pub prepares : ℕ → Call → Bool
prepares q (preps id) = q == id
prepares q _ = false

abbrev pub unprepared : ℕ → List Call → Bool
unprepared q [] = true
unprepared q (c ∷ cs) = not (prepares q c) && unprepared q cs

entries_of-emplace_ne :
    (k id : ℕ) (o : Option Bool) (t : List (ℕ × Bool))
    → k == id ≡ false
    → entries_of k (emplace_unless o id t) ≡ entries_of k t
unfolding emplace_unless entries_of
entries_of-emplace_ne k id none t ne = ground arith
entries_of-emplace_ne k id (some sent) t ne = refl

entries_of-settle :
    (k id : ℕ) (value : Bool → Value) (o : Option Bool) (d : Delegate)
    → find id d.pending ≡ o
    → entries_of k d.pending ≤ 1
    → entries_of k (settle id value o d).pending ≡ (if k == id then 0 else entries_of k d.pending)
      × (settle id value o d).new_query_id ≡ d.new_query_id
unfolding settle
entries_of-settle k id value none d f h = (
  let e : k ≡ id → entries_of k d.pending ≡ 0 = λ same. rw same (entries_of-none id d.pending f) in
      ground arith,
  refl,
)
entries_of-settle k id value (some sent) d f h =
    (let e = entries_of-erase k id d.pending sent f in ground arith, refl)

-- Whether `getFuture` would find the query.
abbrev claimable : ℕ → Delegate → Bool
claimable q d = entries_of q d.pending == 1 && q == d.new_query_id

record Claims (q : ℕ) (b : Bool) (d : Delegate) : Type 0 where
  once : entries_of q d.pending ≤ 1
  claims : claimable q d ≡ b

emplaced :
    (q : ℕ) (t : List (ℕ × Bool)) → entries_of q t ≡ 0 → entries_of q (emplace_unless none q t) ≡ 1
unfolding emplace_unless entries_of
emplaced q t e = ground arith

settle-Claims :
    (q : ℕ) (b : Bool) (d : Delegate) (id : ℕ) (value : Bool → Value)
    → Claims q b d
    → Claims q (b && not (q == id)) (settle id value (find id d.pending) d)
settle-Claims q b d id value v =
    let (left, same) = entries_of-settle q id value (find id d.pending) d refl v.once in
    let once = v.once in
    let claims = v.claims in record { once = ground arith; claims = ground arith }

call-Claims :
    (q : ℕ) (b : Bool) (d : Delegate) (c : Call)
    → prepares q c ≡ false
    → Claims q b d
    → Claims q (b && not (disturbs q c)) (call d c)
unfolding call async_prep async_sent async_recv async_error emplace
call-Claims q b d (preps id) u v =
    let same = entries_of-emplace_ne q id (find id d.pending) d.pending u in
    let once = v.once in record { once = omega arith; claims = ground arith }
call-Claims q b d (sents id) u v =
    let same = entries_of-update q id true d.pending in
    let once = v.once in
    let claims = v.claims in record { once = omega arith; claims = ground arith }
call-Claims q b d (recvs id msg) u v = settle-Claims q b d id _ v
call-Claims q b d (errors id status) u v = settle-Claims q b d id _ v

calls-Claims :
    (q : ℕ) (b : Bool) (d : Delegate) (cs : List Call)
    → unprepared q cs ≡ true
    → Claims q b d
    → Claims q (b && undisturbed q cs) (calls d cs)
unfolding calls
calls-Claims q b d [] u v = let claims = v.claims in record { once = v.once; claims = ground arith }
calls-Claims q b d (c ∷ cs) u v =
    let first : prepares q c ≡ false = ground arith in
    let later : unprepared q cs ≡ true = ground arith in
    let w =
      calls-Claims q (b && not (disturbs q c)) (call d c) cs later (call-Claims q b d c first v) in
    let claims = w.claims in record { once = w.once; claims = ground arith }

prep-Claims : (q : ℕ) (d : Delegate) → find q d.pending ≡ none → Claims q true (async_prep q d)
unfolding async_prep emplace
prep-Claims q d absent =
    let e = entries_of-none q d.pending absent in
    let fresh : entries_of q (emplace_unless (find q d.pending) q d.pending) ≡ 1 =
      rw absent (emplaced q d.pending e) in
    record { once = omega arith; claims = ground arith }

claim-claimable :
    (q : ℕ) (o : Option Bool) (d : Delegate) (b : Bool)
    → find q d.pending ≡ o
    → Claims q b d
    → (claim q o d).0 ≡ (if b then some q else none)
unfolding claim
claim-claimable q none d b f v =
    let e = entries_of-none q d.pending f in let claims = v.claims in ground arith
claim-claimable q (some sent) d b f v =
    let e = entries_of-erase q q d.pending sent f in
    let once = v.once in let claims = v.claims in ground arith

get_future-claimable :
    (q : ℕ) (d : Delegate) (b : Bool)
    → Claims q b d
    → (get_future q d).0 ≡ (if b then some q else none)
unfolding get_future
get_future-claimable q d b v = claim-claimable q (find q d.pending) d b refl v

-- A query that is not pending is prepared, and until its caller asks for the future other threads
-- prepare, send and finish queries, the query's own outcome included, without preparing it again.
-- The caller gets the future exactly if none of them prepared another query and the query's outcome
-- did not come in between; else it gets an exception.
pub get_future-undisturbed :
    (q : ℕ) (d : Delegate) (cs : List Call)
    → find q d.pending ≡ none
    → unprepared q cs ≡ true
    → (get_future q (calls (async_prep q d) cs)).0 ≡ (if undisturbed q cs then some q else none)
get_future-undisturbed q d cs absent u =
    get_future-claimable q (calls (async_prep q d) cs) (undisturbed q cs)
      (calls-Claims q true (async_prep q d) cs u (prep-Claims q d absent))
