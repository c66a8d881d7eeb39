-- ===== src/View/Completion.antt =====
-- MsgView::completion of src/telling/msg_view.cpp.
use telling.Headers.{MsgHeader, read_headers, is_named}
use telling.Headers.Number.{ℤ, pos, negsuc, value_dec}
use telling.Prelude.{
  ℕ, suc, ◌-◌, ◌%◌, ◌^◌, Bool, true, false, not, ◌&&◌, ◌||◌, Option, none, some, List, [], ◌∷◌,
  Bytes, codes, leb, if◌then◌else◌, length, ◌≡◌, refl, ap, ◌∙◌, arith,
}
use telling.Protocol.{parse, is_http}
use telling.Uri.{has_prefix}
use telling.View.{MsgView, headers_string, body_size, protocol_string}

-- `MsgCompletion`
pub record MsgCompletion : Type 0 where
  pub complete : Bool
  pub is_chunked : Bool
  pub length_header : Bool
  pub message_length : ℕ

abbrev pub no_completion : MsgCompletion
no_completion = record {
  complete = false;
  is_chunked = false;
  length_header = false;
  message_length = 0;
}

unfoldable pub implicit : MsgCompletion → Bool
implicit comp = not comp.is_chunked && not comp.length_header

-- From `int64_t` to `size_t`.
unfoldable pub to_size : ℤ → ℕ
to_size (pos n) = n % 2 ^ 64
to_size (negsuc n) = 2 ^ 64 - 1 - n

-- `find(sub) != npos`
unfoldable pub contains_text : Bytes → Bytes → Bool
unfolding has_prefix
contains_text sub [] = has_prefix sub []
contains_text sub (c ∷ s) = has_prefix sub (c ∷ s) || contains_text sub s

-- One round of the loop over the headers.
unfoldable pub note_header : MsgHeader → MsgCompletion → MsgCompletion
unfolding is_named value_dec to_size contains_text
note_header h comp =
    if is_named h.name (codes "Content-Length")
    then record comp { length_header = true; message_length = to_size (value_dec h.value (pos 0)) }
    else if is_named h.name (codes "Transfer-Encoding")
    then (if contains_text (codes "chunked") h.value
        then record comp { is_chunked = true }
        else comp)
    else comp

unfoldable pub note_headers : List MsgHeader → MsgCompletion → MsgCompletion
unfolding note_header
note_headers [] comp = comp
note_headers (h ∷ hs) comp = note_headers hs (note_header h comp)

-- "Explicit length"
unfoldable pub explicit_length : ℕ → MsgCompletion → MsgCompletion
explicit_length body_size comp =
    if comp.length_header && leb comp.message_length body_size
    then record comp { complete = true }
    else comp

-- The last test: a message of another protocol than HTTP ends with its data.
unfoldable pub implicit_length : ℕ → Bool → MsgCompletion → MsgCompletion
unfolding implicit
implicit_length body_size http comp =
    if implicit comp && not http
    then record comp { complete = true; message_length = body_size }
    else comp

-- `completion`, of the headers that the iterator reads.
unfoldable pub completion_of : List MsgHeader → ℕ → Bool → MsgCompletion
unfolding note_headers explicit_length implicit_length
completion_of headers body_size http =
    implicit_length body_size http (explicit_length body_size (note_headers headers no_completion))

unfoldable pub completion_with : Option (List MsgHeader) → MsgView → Option MsgCompletion
unfolding completion_of body_size protocol_string
completion_with none v = none
completion_with (some headers) v =
    some (completion_of headers (body_size v) (is_http (parse (protocol_string v))))

unfoldable pub completion : MsgView → Option MsgCompletion
unfolding completion_with
completion v =
    let text = headers_string v in completion_with (read_headers (suc (length text)) text) v

-- The last Content-Length, if there is one, and whether a Transfer-Encoding says "chunked".
abbrev pub is_length : MsgHeader → Bool
is_length h = is_named h.name (codes "Content-Length")

abbrev pub stated_length : List MsgHeader → Option ℕ → Option ℕ
stated_length [] before = before
stated_length (h ∷ hs) before =
    stated_length hs (if is_length h then some (to_size (value_dec h.value (pos 0))) else before)

abbrev pub says_chunked : List MsgHeader → Bool → Bool
says_chunked [] before = before
says_chunked (h ∷ hs) before = says_chunked hs (
    before
    || (not (is_length h)
        && (is_named h.name (codes "Transfer-Encoding")
            && contains_text (codes "chunked") h.value)))

abbrev pub known_length : MsgCompletion → Option ℕ
known_length comp = if comp.length_header then some comp.message_length else none

known_length-note_header :
    (h : MsgHeader) (comp : MsgCompletion)
    → known_length (note_header h comp)
        ≡ (if is_length h then some (to_size (value_dec h.value (pos 0))) else known_length comp)
      × (note_header h comp).is_chunked ≡ (
          comp.is_chunked
          || (not (is_length h)
              && (is_named h.name (codes "Transfer-Encoding")
                  && contains_text (codes "chunked") h.value)))
      × (note_header h comp).complete ≡ comp.complete
unfolding note_header
known_length-note_header h comp = ground arith

known_length-note_headers :
    (hs : List MsgHeader) (comp : MsgCompletion)
    → known_length (note_headers hs comp) ≡ stated_length hs (known_length comp)
      × (note_headers hs comp).is_chunked ≡ says_chunked hs comp.is_chunked
      × (note_headers hs comp).complete ≡ comp.complete
unfolding note_headers
known_length-note_headers [] comp = (refl, refl, refl)
known_length-note_headers (h ∷ hs) comp =
    let (l, c, k) = known_length-note_header h comp in
    let (ls, cs, ks) = known_length-note_headers hs (note_header h comp) in
    (ls ∙ ap (stated_length hs) l, cs ∙ ap (says_chunked hs) c, ks ∙ k)

-- When a message counts as complete.
abbrev pub is_complete : Option ℕ → Bool → ℕ → Bool → Bool
is_complete (some n) chunked body_size http = leb n body_size
is_complete none chunked body_size http = not chunked && not http

complete-of :
    (comp : MsgCompletion) (body_size : ℕ) (http : Bool)
    → comp.complete ≡ false
    → (implicit_length body_size http (explicit_length body_size comp)).complete
      ≡ is_complete (known_length comp) comp.is_chunked body_size http
unfolding implicit_length explicit_length implicit
complete-of comp body_size http h = ground arith

-- A message counts as complete, in any transfer encoding, when its body is at least as long as its
-- last Content-Length says; with no Content-Length, when no Transfer-Encoding says chunked and its
-- protocol is not HTTP.
pub complete-completion_of :
    (headers : List MsgHeader) (body_size : ℕ) (http : Bool)
    → (completion_of headers body_size http).complete
      ≡ is_complete (stated_length headers none) (says_chunked headers false) body_size http
unfolding completion_of
complete-completion_of headers body_size http =
    let (l, c, k) = known_length-note_headers headers no_completion in
    complete-of (note_headers headers no_completion) body_size http k
    ∙ ap (λ o. is_complete o (note_headers headers no_completion).is_chunked body_size http) l
    ∙ ap (λ b. is_complete (stated_length headers none) b body_size http) c
