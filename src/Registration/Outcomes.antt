-- ===== src/Registration/Outcomes.antt =====
-- What a Registration comes to.
use telling.Layout.Parse.{choose_type}
use telling.Layout.{MsgType}
use telling.MsgError.{ok}
use telling.Prelude.{
  ℕ, ◌≤◌, ◌<◌, Bool, true, false, List, [], ◌∷◌, Bytes, ◌≡◌, refl, ap, arith, length, ltb,
  Bool-cases, inl, inr, ◌==◌, leb, ◌&&◌, if◌then◌else◌,
}
use telling.Protocol.{MsgProtocol}
use telling.Protocol
use telling.Registration.{
  Delegate, enlisted, failed, ErrorType, Exception, reply_received, failure, client_error,
  async_recv, is_working, perm, addrinuse, exist, addrinval, internal,
}
use telling.Status.{
  is_successful, is_client_error, is_server_error, is_informational, is_redirection,
}
use telling.View.Replies.{reply_line, reply_view_as}
use telling.Writer.Compose.{
  contains_newline-NoNewline, preferred_newline-Newline, AreWritable, header_lines,
  header_lines-AreHeaders,
}
use telling.Writer.{contains_newline}
use telling.Writer.RoundTrip.{message_text, header_size}

-- The statuses of a reply that have an error of their own.
abbrev pub known_errors : List (ℕ × ErrorType)
known_errors = (401, perm) ∷ (404, exist) ∷ (409, addrinuse) ∷ (414, addrinval) ∷ []

abbrev pub error_of : ℕ → List (ℕ × ErrorType) → ErrorType
error_of status [] = internal
error_of status ((n, e) ∷ errors) = if status == n then e else error_of status errors

-- What a delegate is after a reply with a status.
abbrev pub Decided : ℕ → Delegate → Delegate → Type 0
Decided status d d' =
    (d'.status ≡ (if leb 200 status && ltb status 300 then enlisted else failed))
    × (d'.except.error ≡ (
        if leb 200 status && ltb status 300 then d.except.error else error_of status known_errors))
    × (is_working d' ≡ false)

client_error-error_of : (status : ℕ) → client_error status ≡ error_of status known_errors
unfolding client_error
client_error-error_of status = ground arith

other-error_of :
    (status : ℕ) → is_client_error status ≡ false → error_of status known_errors ≡ internal
unfolding is_client_error
other-error_of status h = ground arith

-- An exception that is internal whatever its source.
abbrev internal_from : Bytes → Exception
internal_from source = record { error = internal; source = source }

all_internal :
    (a b c : Bool) (w x y z : Bytes)
    → (if a
        then internal_from w
        else if b
        then internal_from x
        else if c
        then internal_from y
        else internal_from z).error
      ≡ internal
all_internal true b c w x y z = refl
all_internal false true c w x y z = refl
all_internal false false true w x y z = refl
all_internal false false false w x y z = refl

failure-error : (status : ℕ) → (failure status).error ≡ error_of status known_errors
unfolding failure
failure-error status = elim (Bool-cases (is_client_error status)) [
  | inl c ↦ rw c (client_error-error_of status)
  | inr c ↦ rw c (
      rw (other-error_of status c) (
        all_internal (is_server_error status) (is_informational status) (is_redirection status) _ _
          _ _))
]

reply_received-Decided : (status : ℕ) (d : Delegate) → Decided status d (reply_received status d)
unfolding reply_received is_successful is_working
reply_received-Decided status d = elim (Bool-cases (leb 200 status && ltb status 300)) [
  | inl e ↦ rw e (refl, refl, refl)
  | inr e ↦ rw e (refl, failure-error status, refl)
]

-- A reply in the format of the writer, of any valid protocol, with a status from 1 to 999, a reason in
-- one line of at most 128 bytes, writable headers within 64 KiB and any body, decides a registration:
-- it is enlisted exactly where the status is that of a success; otherwise it has failed, with the error
-- that belongs to 401, 404, 409 or 414, or else with an internal one.
pub async_recv-Decided :
    (p : MsgProtocol) (status : ℕ) (reason : Bytes) (hs : List (Bytes × Bytes)) (body : Bytes)
    (d : Delegate)
    → Protocol.is_valid p ≡ true
    → 0 < status
    → status ≤ 999
    → contains_newline reason ≡ false
    → length reason ≤ 128
    → AreWritable hs
    → header_size (reply_line p status reason) p hs ≤ 0xFFFF
    → (d' : Delegate) × (async_recv (message_text (reply_line p status reason) p hs body) d ≡ ok d')
      × Decided status d d'
unfolding async_recv choose_type
async_recv-Decided p status reason hs body d valid pos top one short writable small =
    let (v, seen, read) =
      reply_view_as MsgType.reply p status reason (Protocol.preferred_newline p) (header_lines hs)
        body (preferred_newline-Newline p) valid pos top (contains_newline-NoNewline reason one)
        short refl (header_lines-AreHeaders hs writable) small in
    (
      reply_received status d,
      rw seen (ap (λ n. ok (reply_received n d)) read.status_is),
      reply_received-Decided status d,
    )
