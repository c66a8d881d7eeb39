-- ===== src/Services/Live.antt =====
-- What a listener makes of the reports of services.
use telling.Prelude.{
  Bool, true, false, Option, none, some, List, [], ◌∷◌, ◌++◌, Bytes, same_text, same_text_iff, ◌==◌,
  if◌then◌else◌, ◌≡◌, ◌≢◌, refl, sym, arith, ◌||◌,
}
use telling.Services.{Route, Report}
use telling.Status.StatusCode

-- Whether a listener who follows the reports takes the path for routed: the last report on it says
-- so.
abbrev pub is_live : Bytes → List Report → Bool → Bool
is_live path [] before = before
is_live path (r ∷ rest) before =
    is_live path rest (if same_text r.path path then r.status == StatusCode.created else before)

abbrev pub is_some : Option Route → Bool
is_some none = false
is_some (some r) = true

abbrev pub has_path : Bytes → List Route → Bool
has_path path [] = false
has_path path (r ∷ rest) = same_text r.path path || has_path path rest

pub is_live-append :
    (path : Bytes) (xs ys : List Report) (b : Bool)
    → is_live path (xs ++ ys) b ≡ is_live path ys (is_live path xs b)
is_live-append path [] ys b = refl
is_live-append path (r ∷ xs) ys b = is_live-append path xs ys _

pub has_path-append :
    (k : Bytes) (rs : List Route) (r : Route)
    → has_path k (rs ++ r ∷ []) ≡ (has_path k rs || same_text r.path k)
has_path-append k [] r = ground arith
has_path-append k (x ∷ rs) r = ground (arith, has_path-append k rs r)

same_text_refl : (k : Bytes) → same_text k k ≡ true
same_text_refl k = (same_text_iff k k).1 refl

pub ne-same_text : (a b : Bytes) → same_text a b ≡ false → b ≢ a
ne-same_text a b h e = let t = (same_text_iff a b).1 (sym e) in ground arith

-- The reports of closing these routes.
abbrev pub closings : List Route → List Report
closings [] = []
closings (r ∷ rest) = record { status = StatusCode.gone; path = r.path } ∷ closings rest

pub is_live-closings :
    (k : Bytes) (rs : List Route) (b : Bool)
    → is_live k (closings rs) b ≡ (if has_path k rs then false else b)
is_live-closings k [] b = refl
is_live-closings k (r ∷ rs) b =
    let ih = is_live-closings k rs (if same_text r.path k then false else b) in ground arith
