-- ===== src/Base/Rows.antt =====
-- Keys and row checks of a table: what an insertion and an update keep.
use mathlib.Core.Path.{◌≡◌, refl, ◌∙◌}
use mathlib.Core.Bool.{Bool, true, false}
use mathlib.Core.List.{List, [], ◌∷◌, ◌++◌}
use native.Mathlib.Omega.{arith}
use stock_tracker_data_colle.Base.Tests.{if◌then◌else◌}
use stock_tracker_data_colle.Base.Lists.{All}
use stock_tracker_data_colle.Base.Tables.{exists, update_where, first-append, exists-update_where}

module _ {A : Type 0} (same : A → A → Bool) where
  -- No two rows have the same key.
  abbrev pub Unique : List A → Type 0
  Unique [] = Unit
  Unique (r ∷ rs) = (exists (same r) rs ≡ false) × Unique rs

  module _ (symmetric : (r s : A) → same r s ≡ same s r) (w : A) where
    pub Unique-append :
        (rows : List A) → exists (same w) rows ≡ false → Unique rows → Unique (rows ++ w ∷ [])
    Unique-append [] new u = (refl, tt)
    Unique-append (r ∷ rs) new u =
        ground (arith, symmetric r w, first-append (same r) rs (w ∷ []), Unique-append rs)

  module _ (test : A → Bool) (change : A → A)
      (keeps_left : (r s : A) → same (change r) s ≡ same r s)
      (keeps_right : (r s : A) → same r (change s) ≡ same r s) where
    exists-changed :
        (b : Bool) (r : A) (rs : List A)
        → exists (same (if b then change r else r)) rs ≡ exists (same r) rs
    exists-changed true r [] = refl
    exists-changed true r (s ∷ rs) = ground (arith, keeps_left r s, exists-changed true r rs)
    exists-changed false r rs = refl

    pub Unique-update_where : (rows : List A) → Unique rows → Unique (update_where test change rows)
    Unique-update_where [] u = tt
    Unique-update_where (r ∷ rs) (alone, u) = (
      exists-changed (test r) r (update_where test change rs)
          ∙ exists-update_where (same r) test change (keeps_right r) rs
          ∙ alone,
      Unique-update_where rs u,
    )

module _ {A : Type 0} (P Q : A → Type 0) where
  pub All-imp : ((r : A) → P r → Q r) → (rows : List A) → All P rows → All Q rows
  All-imp each [] h = tt
  All-imp each (r ∷ rs) (p, ps) = (each r p, All-imp each rs ps)

module _ {A : Type 0} (P : A → Type 0) where
  pub All-append_one : (rows : List A) (w : A) → All P rows → P w → All P (rows ++ w ∷ [])
  All-append_one [] w h p = (p, tt)
  All-append_one (r ∷ rs) w (h, hs) p = (h, All-append_one rs w hs p)

  changed : (b : Bool) (change : A → A) (r : A) → P r → P (change r) → P (if b then change r else r)
  changed true change r p q = q
  changed false change r p q = p

  pub All-update_where :
      (test : A → Bool) (change : A → A)
      → ((r : A) → P r → P (change r))
      → (rows : List A) → All P rows
      → All P (update_where test change rows)
  All-update_where test change each [] h = tt
  All-update_where test change each (r ∷ rs) (h, hs) =
      (changed (test r) change r h (each r h), All-update_where test change each rs hs)
