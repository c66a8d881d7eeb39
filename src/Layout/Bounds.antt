-- ===== src/Layout/Bounds.antt =====
-- Where the elements of a start line stand, and that every range of a layout lies in its line.
use telling.Layout.{
  MsgType, unknown, reply, report, request, HeadRange, MsgLayout, msg_type, method_range, uri_range,
  protocol_range, status_range, reason_range, set_elements,
}
use telling.MsgError.{ok}
use telling.Prelude.{ℕ, ◌+◌, ◌≤◌, ◌<◌, ◌≡◌, ◌⊎◌, Option, none, some, List, [], ◌∷◌, arith}

abbrev pub Within : ℕ → HeadRange → Type 0
Within n r = r.start + r.size ≤ n

-- The reason's range may start up to four bytes behind the line where it is empty.
pub record InLine (l : MsgLayout) : Type 0 where
  pub method : Within l.sl_len (method_range l)
  pub uri : Within l.sl_len (uri_range l)
  pub protocol : Within l.sl_len (protocol_range l)
  pub status : Within l.sl_len (status_range l)
  pub reason : ((reason_range l).size ≡ 0) ⊎ Within l.sl_len (reason_range l)

-- Offsets that rise by at least one, from `lo` to `n`.
abbrev pub Rising : ℕ → ℕ → List ℕ → Type 0
Rising lo n [] = Unit {0}
Rising lo n (o ∷ os) = (lo ≤ o) × (o ≤ n) × Rising (o + 1) n os

-- The elements after the first, as `_setStartLine` gets them.
abbrev pub Elements : ℕ → Option ℕ → Option ℕ → Option ℕ → Type 0
Elements n (some s) (some t) (some u) = (1 ≤ s) × (s + 1 ≤ t) × (t + 1 ≤ u) × (u ≤ n)
Elements n (some s) (some t) none = (1 ≤ s) × (s + 1 ≤ t) × (t ≤ n)
Elements n (some s) none none = (1 ≤ s) × (s ≤ n)
Elements n none none none = Unit {0}
Elements n _ _ _ = ⊥

-- What `_setStartLine` keeps, and what it makes of the elements.
pub record SetElements (kind : MsgType) (l r : MsgLayout) : Type 0 where
  pub in_line : InLine r
  pub same_body : r.p_body ≡ l.p_body
  pub same_len : r.sl_len ≡ l.sl_len
  pub same_nl : r.sl_nl ≡ l.sl_nl
  pub has_type : 0 < l.sl_len → msg_type r ≡ kind

module _ (l : MsgLayout) {r : MsgLayout} (small : l.sl_len ≤ 65535) where
  set_elements-request :
      (second third fourth : Option ℕ)
      → Elements l.sl_len second third fourth
      → set_elements request l.sl_len l second third fourth ≡ ok r
      → SetElements request l r
  unfolding set_elements msg_type method_range uri_range protocol_range status_range reason_range
  set_elements-request (some s) (some t) none e h = ground arith
  set_elements-request (some s) none none e h = ground arith
  set_elements-request _ _ _ e h = ground arith

  set_elements-reply :
      (second third fourth : Option ℕ)
      → Elements l.sl_len second third fourth
      → set_elements reply l.sl_len l second third fourth ≡ ok r
      → SetElements reply l r
  unfolding set_elements msg_type method_range uri_range protocol_range status_range reason_range
  set_elements-reply (some s) (some t) (some u) e h = ground arith
  set_elements-reply (some s) (some t) none e h = ground arith
  set_elements-reply (some s) none none e h = ground arith
  set_elements-reply _ _ _ e h = ground arith

  set_elements-report :
      (second third fourth : Option ℕ)
      → Elements l.sl_len second third fourth
      → set_elements report l.sl_len l second third fourth ≡ ok r
      → SetElements report l r
  unfolding set_elements msg_type method_range uri_range protocol_range status_range reason_range
  set_elements-report (some s) (some t) (some u) e h = ground arith
  set_elements-report (some s) (some t) none e h = ground arith
  set_elements-report (some s) none none e h = ground arith
  set_elements-report none none none e h = ground arith
  set_elements-report _ _ _ e h = ground arith

  pub set_elements_lem :
      (kind : MsgType) (second third fourth : Option ℕ)
      → Elements l.sl_len second third fourth
      → set_elements kind l.sl_len l second third fourth ≡ ok r
      → SetElements kind l r
  set_elements_lem request s t u e h = set_elements-request s t u e h
  set_elements_lem reply s t u e h = set_elements-reply s t u e h
  set_elements_lem report s t u e h = set_elements-report s t u e h
  set_elements_lem unknown s t u e h = unfold set_elements in ground arith
