-- ===== src/Params/Bounds.antt =====
-- Validated parameters are read within their bounds, and a double is never bound as NULL.
use rsqlite.Prelude.{
  ℕ, zero, suc, ◌<◌, ◌≡◌, ◌≢◌, ap, ◌∙◌, if◌then◌else◌, refl, false, some, none, List, [], ◌∷◌,
  length, get_elem?, arith, false,
}
use rsqlite.Outcome.{Result, ◌>>=◌, ok, stop, out_of_bounds}
use rsqlite.Runtime.{na_real}
use rsqlite.Storage.Blocks.{All}
use rsqlite.Params
use rsqlite.Params.{
  Param, BoundValue, is_nan, null_value, double_value, param_length, element, bind_value, double_eq,
  same_lengths, validate_params,
}

-- An index below the length finds an element.
pub get_elem?-some {ℓ} :
    {A : Type ℓ} (xs : List A) (i : ℕ) → i < length xs → (x : A) × (get_elem? xs i ≡ some x)
get_elem?-some [] i h = absurd (omega arith)
get_elem?-some (x ∷ xs) zero h = (x, refl)
get_elem?-some (x ∷ xs) (suc i) h = get_elem?-some xs i (omega arith)

same_lengths-All :
    (n j : ℕ) (params : List Param)
    → same_lengths n j params ≡ ok tt
    → All (λ (p : Param). param_length p ≡ n) params
unfolding same_lengths
same_lengths-All n j [] h = tt
same_lengths-All n j (p ∷ params) h =
    (ground arith, same_lengths-All n (suc j) params (ground arith))

-- Accepted parameters all have as many rows as the first one.
pub validate_params-All :
    (p : Param) (params : List Param)
    → validate_params (p ∷ params) ≡ ok tt
    → All (λ (q : Param). param_length q ≡ param_length p) (p ∷ params)
unfolding validate_params
validate_params-All p params h = (refl, same_lengths-All (param_length p) 2 params h)

pub within :
    (p : Param) (group : ℕ) → group < param_length p → bind_value p group ≢ stop out_of_bounds
unfolding bind_value
within (Params.lgl xs) group h e = ground (arith, get_elem?-some xs group h)
within (Params.int64 xs) group h e = ground (arith, get_elem?-some xs group h)
within (Params.int xs) group h e = ground (arith, get_elem?-some xs group h)
within (Params.real xs) group h e = ground (arith, get_elem?-some xs group h)
within (Params.str xs) group h e = ground (arith, get_elem?-some xs group h)
within (Params.list xs) group h e = ground (arith, get_elem?-some xs group h)
within (Params.others n) group h e = cc

All-within :
    (n group : ℕ) (params : List Param)
    → group < n
    → All (λ (q : Param). param_length q ≡ n) params
    → All (λ (q : Param). bind_value q group ≢ stop out_of_bounds) params
All-within n group [] h k = tt
All-within n group (q ∷ params) h k =
    (within q group (omega (arith, k.0)), All-within n group params h k.1)

-- If the parameters pass validate_params, no row below the length of the first one is read past the
-- end of any of them.
pub validated_in_bounds :
    (p : Param) (params : List Param) (group : ℕ)
    → validate_params (p ∷ params) ≡ ok tt
    → group < param_length p
    → All (λ (q : Param). bind_value q group ≢ stop out_of_bounds) (p ∷ params)
validated_in_bounds p params group h lt =
    All-within (param_length p) group (p ∷ params) lt (validate_params-All p params h)

double_eq-na : (x : ℕ) → double_eq x na_real ≡ false
unfolding double_eq is_nan
double_eq-na x = ground arith

-- The test against NA_real_ is never true, so a double is always bound as a double: also the
-- missing value.
pub real_never_null :
    (xs : List ℕ) (group x : ℕ)
    → get_elem? xs group ≡ some x
    → bind_value (Params.real xs) group ≡ ok (double_value x)
unfolding bind_value
real_never_null xs group x e =
    ap (λ o. elim o [ none ↦ stop out_of_bounds | some v ↦ ok v ] >>= shown) e
    ∙ ap (λ b. ok (if b then null_value else double_value x)) (double_eq-na x)
  where
    shown : ℕ → Result BoundValue
    shown value = ok (if double_eq value na_real then null_value else double_value value)
