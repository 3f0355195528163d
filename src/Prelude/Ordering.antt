-- ===== src/Prelude/Ordering.antt =====
-- Three-way comparisons, as in Go's `cmp.Compare` and `cmp.Or`, and the laws that make one a total
-- preorder. A text is compared by its bytes, as Go does.
use Prim.Native.Nat.{Ordering, compare as compare_ℕ}
use Prim.Native.String.{String, compare, then}
use Prim.Native.String.compare
use text.Mathlib.TextEquality.{path_by_compare}
use mathlib.Core.Path.{◌≡◌, refl, ap}
use native.Mathlib.Omega.{arith}

abbrev pub flip : Ordering → Ordering
flip Ordering.lt = Ordering.gt
flip Ordering.eq = Ordering.eq
flip Ordering.gt = Ordering.lt

-- `c` is a total preorder: `lt`, `eq` and `gt` are as they should be.
pub record IsCompare {ℓ} {A : Type ℓ} (c : A → A → Ordering) : Type ℓ where
  pub flips : (x y : A) → c y x ≡ flip (c x y)
  pub eq_left : (x y z : A) → c x y ≡ Ordering.eq → c x z ≡ c y z
  pub lt_trans : (x y z : A) → c x y ≡ Ordering.lt → c y z ≡ Ordering.lt → c x z ≡ Ordering.lt

-- `cmp.Or` of two comparisons
abbrev pub lex {ℓ} : {A : Type ℓ} → (A → A → Ordering) → (A → A → Ordering) → A → A → Ordering
lex c d x y = then (c x y) (d x y)

module _ {ℓ} {A : Type ℓ} {c d : A → A → Ordering} where
  pub IsCompare-lex : IsCompare c → IsCompare d → IsCompare (lex c d)
  IsCompare-lex p q = record {
    flips = λ x y. ground (arith, p.flips x y, q.flips x y);
    eq_left = λ x y z h. ground (arith, p.eq_left x y z, q.eq_left x y z);
    lt_trans = λ x y z h k. ground (
      arith,
      p.eq_left x y z,
      p.lt_trans x y z,
      q.lt_trans x y z,
      p.flips y z,
      p.flips x z,
      p.eq_left z y x,
      p.flips x y,
    );
  }

abbrev pub on {ℓ κ} : {A : Type ℓ} {B : Type κ} → (A → B) → (B → B → Ordering) → A → A → Ordering
on f c x y = c (f x) (f y)

pub IsCompare-on {ℓ κ} :
    {A : Type ℓ} {B : Type κ} (f : A → B) {c : B → B → Ordering} → IsCompare c → IsCompare (on f c)
IsCompare-on f p = record {
  flips = λ x y. p.flips (f x) (f y);
  eq_left = λ x y z. p.eq_left (f x) (f y) (f z);
  lt_trans = λ x y z. p.lt_trans (f x) (f y) (f z);
}

pub IsCompare-ℕ : IsCompare compare_ℕ
IsCompare-ℕ = record {
  flips = λ x y. ground arith;
  eq_left = λ x y z h. ground arith;
  lt_trans = λ x y z h k. ground arith;
}

text_flips : (s t : String) → compare t s ≡ flip (compare s t)
text_flips String.[] String.[] = refl
text_flips String.[] (String.◌∷◌ d t) = ground (arith, compare.nil-cons d t, compare.cons-nil d t)
text_flips (String.◌∷◌ c s) String.[] = ground (arith, compare.nil-cons c s, compare.cons-nil c s)
text_flips (String.◌∷◌ c s) (String.◌∷◌ d t) =
    ground (arith, compare.cons-cons c d s t, compare.cons-cons d c t s, text_flips s t)

text_lt_trans :
    (s t u : String)
    → compare s t ≡ Ordering.lt
    → compare t u ≡ Ordering.lt
    → compare s u ≡ Ordering.lt
text_lt_trans String.[] t String.[] h k = ground (arith, text_flips String.[] t)
text_lt_trans String.[] t (String.◌∷◌ e u) h k = compare.nil-cons e u
text_lt_trans (String.◌∷◌ c s) String.[] u h k = ground (arith, compare.cons-nil c s)
text_lt_trans (String.◌∷◌ c s) (String.◌∷◌ d t) String.[] h k = ground (arith, compare.cons-nil d t)
text_lt_trans (String.◌∷◌ c s) (String.◌∷◌ d t) (String.◌∷◌ e u) h k = ground (
  arith,
  compare.cons-cons c d s t,
  compare.cons-cons d e t u,
  compare.cons-cons c e s u,
  text_lt_trans s t u,
)

pub IsCompare-String : IsCompare compare
IsCompare-String = record {
  flips = text_flips;
  eq_left = λ x y z h. ap (λ w. compare w z) (path_by_compare x y h);
  lt_trans = text_lt_trans;
}
