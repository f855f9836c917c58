-- ===== src/Metrics/Order.antt =====
-- The order of the keys of the counters.
use Prim.Native.String.{String}
use text.Mathlib.TextEquality.{Char-path}
use stock_tracker_data_colle.Base.{ℕ, ◌≡◌, refl, true, false, arith, eq_iff}
use stock_tracker_data_colle.Metrics.Render.{text_before, request_before}

pub text_before_irrefl : (s : String) → text_before s s ≡ false
unfolding text_before
text_before_irrefl String.[] = refl
text_before_irrefl (String.◌∷◌ c s) = ground (arith, text_before_irrefl s)

pub text_before_trans :
    (s t u : String) → text_before s t ≡ true → text_before t u ≡ true → text_before s u ≡ true
unfolding text_before
text_before_trans String.[] String.[] u h k = cc
text_before_trans String.[] (String.◌∷◌ d t) String.[] h k = cc
text_before_trans String.[] (String.◌∷◌ d t) (String.◌∷◌ e u) h k = refl
text_before_trans (String.◌∷◌ c s) String.[] u h k = cc
text_before_trans (String.◌∷◌ c s) (String.◌∷◌ d t) String.[] h k = cc
text_before_trans (String.◌∷◌ c s) (String.◌∷◌ d t) (String.◌∷◌ e u) h k =
    ground (arith, text_before_trans s t u)

pub text_before_total : (s t : String) → text_before s t ≡ false → text_before t s ≡ false → s ≡ t
unfolding text_before
text_before_total String.[] String.[] h k = refl
text_before_total String.[] (String.◌∷◌ d t) h k = cc
text_before_total (String.◌∷◌ c s) String.[] h k = cc
text_before_total (String.◌∷◌ c s) (String.◌∷◌ d t) h k =
    ground (arith, text_before_total s t, Char-path c d)

pub request_before_irrefl : (k : String × ℕ) → request_before k k ≡ false
request_before_irrefl (m, s) = ground (arith, text_before_irrefl m)

pub request_before_trans :
    (k j i : String × ℕ)
    → request_before k j ≡ true
    → request_before j i ≡ true
    → request_before k i ≡ true
request_before_trans (m, s) (m', s') (m'', s'') h k =
    ground (arith, text_before_trans m m' m'', eq_iff m m', eq_iff m' m'', eq_iff m m'')

pub request_before_total :
    (k j : String × ℕ) → request_before k j ≡ false → request_before j k ≡ false → k ≡ j
request_before_total (m, s) (m', s') h k =
    ground (arith, text_before_total m m', eq_iff m m', eq_iff m' m)
