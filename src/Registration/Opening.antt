-- ===== src/Registration/Opening.antt =====
-- What the server's registry does with the request of a Registration.
use telling.Layout.Parse.{choose_type}
use telling.Layout.{request}
use telling.Lines.Split.{NoNewline, consume_line-lf}
use telling.Lines.{consume_line}
use telling.Method.{MethodCode}
use telling.Method
use telling.MsgError.{ok}
use telling.Prelude.{
  ℕ, ◌≤◌, false, some, [], ◌∷◌, ◌++◌, Bytes, codes, ◌≡◌, refl, subst, sym, ◌∙◌, ap, arith,
}
use telling.Protocol.{MsgProtocol}
use telling.Protocol
use telling.Registration.{alias_or_path, registration_request}
use telling.Services.{
  PrefixMap, Route, Services, async_recv, answer, register_body, register_path, register, in_proc,
}
use telling.View.Requests.{request_line, request-view_as}
use telling.Writer.Compose.{
  contains_newline-NoNewline, contains_whitespace-IsElement, preferred_newline-Newline,
}
use telling.Writer.RoundTrip.{write_request-text, message_text, header_size}
use telling.Writer.{MsgWriter, contains_whitespace, contains_newline}

consume_line-last : (line : Bytes) → NoNewline line → consume_line line ≡ (line, [])
unfolding consume_line
consume_line-last [] h = refl
consume_line-last (c ∷ line) h = ground (arith, consume_line-last line h.2)

alias_or_path-NoNewline :
    (path alias : Bytes) → NoNewline path → NoNewline alias → NoNewline (alias_or_path path alias)
unfolding alias_or_path
alias_or_path-NoNewline path [] one two = one
alias_or_path-NoNewline path (c ∷ alias) one two = two

abbrev first_line : Bytes
first_line = request_line MethodCode.post (codes "*services") MsgProtocol.tell

request_small : header_size first_line MsgProtocol.tell [] ≤ 0xFFFF
unfolding Protocol.preferred_newline Protocol.to_string Method.to_string
request_small = omega arith

module _ (m : PrefixMap Route) where
  register_lines :
      (query pipe : ℕ) (prefix path : Bytes) (s : Services m)
      → NoNewline prefix
      → NoNewline path
      → register_body m query pipe (prefix ++ (b'\n' ∷ path)) s
        ≡ register_path m query pipe prefix [] s
  unfolding register_body
  register_lines query pipe prefix path s one two =
      rw (consume_line-lf prefix path one) (rw (consume_line-last path two) refl)

  -- What a registration asks the registry for.
  abbrev pub Asks : ℕ → ℕ → Bytes → Services m → Services m → Type 0
  Asks query pipe prefix s s' =
      (s'.route_open
        ≡ s.route_open
          ++ record { query_id = query; pipe_id = pipe; map_uri = prefix; host = in_proc m prefix }
            ∷ [])
      × (s'.registration ≡ register pipe prefix s.registration)
      × (s'.replies ≡ s.replies)
      × (s'.map ≡ s.map)

  asked :
      (query pipe : ℕ) (prefix : Bytes) (s : Services m)
      → Asks query pipe prefix s (register_path m query pipe prefix [] s)
  unfolding register_path
  asked query pipe prefix s = (refl, refl, refl, refl)

  -- For a path and an alias in one line each, the constructor writes its request without an exception,
  -- and the registry takes that message, from any pipe, for the registration of that pipe at the alias,
  -- or at the path where the alias is empty: it queues the opening of a route to there and answers
  -- nothing yet.
  pub registration-asks :
      (path alias : Bytes) (query pipe : ℕ) (s : Services m)
      → contains_newline path ≡ false
      → contains_newline alias ≡ false
      → (msg : Bytes) × (w : MsgWriter) × (registration_request path alias ≡ ok (some msg, w))
        × Asks query pipe (alias_or_path path alias) s (async_recv m query pipe msg s)
  unfolding registration_request async_recv answer contains_whitespace Method.is_valid
      Protocol.is_valid choose_type
  registration-asks path alias query pipe s one two =
      let plain = contains_newline-NoNewline path one in
      let prefix = alias_or_path path alias in
      let body = prefix ++ (b'\n' ∷ path) in
      let (w, e) =
        write_request-text MethodCode.post (codes "*services") MsgProtocol.tell [] body refl refl
          refl tt request_small in
      let (v, seen, read) =
        request-view_as request MethodCode.post (codes "*services") MsgProtocol.tell
          (Protocol.preferred_newline MsgProtocol.tell) [] body
          (preferred_newline-Newline MsgProtocol.tell) refl refl
          (contains_whitespace-IsElement (codes "*services") refl) refl tt request_small in
      let msg = message_text first_line MsgProtocol.tell [] body in
      let registers : async_recv m query pipe msg s ≡ register_path m query pipe prefix [] s =
        ap (λ r. answer m query pipe r s) seen
        ∙ ap (λ b. register_body m query pipe b s) read.body_is
        ∙ register_lines query pipe prefix path s
            (alias_or_path-NoNewline path alias plain (contains_newline-NoNewline alias two))
            plain in
      (
        msg,
        w,
        e,
        subst (λ s'. Asks query pipe prefix s s') (sym registers) (asked query pipe prefix s),
      )
