-- ===== src/HttpClient/Written.antt =====
-- When a reply, laid out as the writer does, is a complete response for an HttpClient.
use telling.Headers.Block.{headers_read, read_headers-view}
use telling.HttpClient.Reading.{is_whole, whole}
use telling.HttpClient.{completion_if, completion_now}
use telling.Layout.{reply}
use telling.Layout.Accept.{lines_text}
use telling.Layout.Parse.{choose_type}
use telling.Prelude.{
  ℕ, ◌-◌, ◌≤◌, ◌<◌, true, false, none, some, List, ◌++◌, Bytes, length, ◌≡◌, refl, ap, ◌∙◌, arith,
}
use telling.Protocol.{MsgProtocol, is_http}
use telling.Protocol
use telling.View.Completion.{
  completion, completion_with, completion_of, stated_length, says_chunked, is_complete,
  complete-completion_of,
}
use telling.View.Replies.{ReplyRead, reply_line, reply_view_as}
use telling.View.{MsgView, body_size, protocol_string}
use telling.Writer.Compose.{
  AreWritable, header_lines, contains_newline-NoNewline, header_lines-AreHeaders,
  preferred_newline-Newline,
}
use telling.Writer.RoundTrip.{message_text, header_size}
use telling.Writer.{contains_newline}

module _ (p : MsgProtocol) (hs : List (Bytes × Bytes)) (body : Bytes)
    (writable : AreWritable hs) where
  completion-ReplyRead :
      (v : MsgView) (status : ℕ) (reason : Bytes)
      → ReplyRead v p status reason
          (lines_text (Protocol.preferred_newline p) (header_lines hs)
            ++ Protocol.preferred_newline p)
          body
      → completion v ≡ some (completion_of (headers_read hs) (length body) (is_http p))
  unfolding completion completion_with body_size
  completion-ReplyRead v status reason r =
      let nl = Protocol.preferred_newline p in
      let headers =
        read_headers-view nl (preferred_newline-Newline p) v hs writable r.headers_are in
      let size : length v.msg - v.layout.p_body ≡ length body = let at = r.body_at in omega arith in
      ap (λ o. completion_with o v) headers
      ∙ (ap
            (λ n.
              some
                (completion_of (headers_read hs) n (is_http (Protocol.parse (protocol_string v)))))
            size
          ∙ ap (λ q. some (completion_of (headers_read hs) (length body) (is_http q)))
              r.protocol_is)

  module _ (blank : ℕ → Bytes) where
    -- A reply with a status from 1 to 999, a reason in one line of at most 128 bytes, a valid protocol,
    -- headers that the writer takes and any body, if the header fits 64 KiB: an HttpClient that has
    -- read just this takes it for a complete response exactly if the body is as long as its last
    -- Content-Length says, or there is none, no Transfer-Encoding says chunked, and the protocol is
    -- not HTTP.
    pub whole_reply :
        (status : ℕ) (reason : Bytes)
        → 0 < status
        → status ≤ 999
        → contains_newline reason ≡ false
        → length reason ≤ 128
        → Protocol.is_valid p ≡ true
        → header_size (reply_line p status reason) p hs ≤ 0xFFFF
        → whole blank (message_text (reply_line p status reason) p hs body)
          ≡ is_complete
              (stated_length (headers_read hs) none)
              (says_chunked (headers_read hs) false)
              (length body)
              (is_http p)
    unfolding completion_now completion_if choose_type
    whole_reply status reason pos top one short vp small =
        let (v, parses, r) =
          reply_view_as reply p status reason (Protocol.preferred_newline p) (header_lines hs) body
            (preferred_newline-Newline p) vp pos top (contains_newline-NoNewline reason one) short
            refl (header_lines-AreHeaders hs writable) small in
        ap (λ x. is_whole blank (completion_if blank x)) parses
        ∙ ap (is_whole blank) (completion-ReplyRead v status reason r)
        ∙ complete-completion_of (headers_read hs) (length body) (is_http p)
