-- ===== src/ResultImpl/Kept.antt =====
-- What the calls of a result keep, and which errors they do not raise.
use rsqlite.Prelude.{ℕ, suc, ◌≤◌, ◌<◌, ◌≡◌, ◌≢◌, refl, ap, ◌∙◌, Bool, true, arith}
use mathlib.Core.Path.{Path}
use rsqlite.Outcome.{Error, Result, ok, stop, out_of_bounds, out_of_fuel}
use rsqlite.Storage.Blocks.{All}
use rsqlite.Params.{Param, param_length, bind_value}
use rsqlite.ResultImpl.{ResultImpl}

-- All parameters have the number of rows that the statement runs through.
abbrev pub IsFitting : {Stmt : Type 0} → ResultImpl Stmt → Type 0
IsFitting r = All (λ (p : Param). param_length p ≡ r.groups) r.params

-- Neither a read past the end nor a loop that does not end.
abbrev pub Safe {ℓ} : {A : Type ℓ} → Result A → Type ℓ
Safe x = (x ≢ stop out_of_bounds) × (x ≢ stop out_of_fuel)

-- What stepping leaves as it is.
pub record Kept {Stmt : Type 0} (r s : ResultImpl Stmt) : Type 0 where
  pub names : s.names ≡ r.names
  pub nparams : s.nparams ≡ r.nparams
  pub ready : s.ready ≡ r.ready
  pub nrows : s.nrows ≡ r.nrows
  pub params : s.params ≡ r.params
  pub groups : s.groups ≡ r.groups
  pub types : s.types ≡ r.types
  pub alt_types : s.with_alt_types ≡ r.with_alt_types
  pub group : r.group ≤ s.group

pub Kept-trans : {Stmt : Type 0} (r s t : ResultImpl Stmt) → Kept r s → Kept s t → Kept r t
Kept-trans r s t a b = record {
  names = b.names ∙ a.names;
  nparams = b.nparams ∙ a.nparams;
  ready = b.ready ∙ a.ready;
  nrows = b.nrows ∙ a.nrows;
  params = b.params ∙ a.params;
  groups = b.groups ∙ a.groups;
  types = b.types ∙ a.types;
  alt_types = b.alt_types ∙ a.alt_types;
  group = omega (arith, a.group, b.group);
}

pub Kept-refl : {Stmt : Type 0} (r : ResultImpl Stmt) → Kept r r
Kept-refl r = record {
  names = refl;
  nparams = refl;
  ready = refl;
  nrows = refl;
  params = refl;
  groups = refl;
  types = refl;
  alt_types = refl;
  group = omega arith;
}

-- The statement and the test for completion do not count.
pub Kept-stmt :
    {Stmt : Type 0} (r : ResultImpl Stmt) (stmt : Stmt) → Kept r (record r { stmt = stmt })
Kept-stmt r stmt = record {
  names = refl;
  nparams = refl;
  ready = refl;
  nrows = refl;
  params = refl;
  groups = refl;
  types = refl;
  alt_types = refl;
  group = omega arith;
}

pub Kept-complete : {Stmt : Type 0} (r : ResultImpl Stmt) → Kept r (record r { complete = true })
Kept-complete r = record {
  names = refl;
  nparams = refl;
  ready = refl;
  nrows = refl;
  params = refl;
  groups = refl;
  types = refl;
  alt_types = refl;
  group = omega arith;
}

pub Kept-group : {Stmt : Type 0} (r : ResultImpl Stmt) → Kept r (record r { group = suc r.group })
Kept-group r = record {
  names = refl;
  nparams = refl;
  ready = refl;
  nrows = refl;
  params = refl;
  groups = refl;
  types = refl;
  alt_types = refl;
  group = omega arith;
}

pub fits_still : {Stmt : Type 0} (r s : ResultImpl Stmt) → Kept r s → IsFitting r → IsFitting s
fits_still r s k fit = rw (k.params, k.groups) fit

pub Safe-stop : {A B : Type 0} (e : Error) → Safe {A = A} (stop e) → Safe {A = B} (stop e)
Safe-stop e s = ((λ h. s.0 (ap stop (of_stop e _ h))), (λ h. s.1 (ap stop (of_stop e _ h))))
  where
    of_stop : {C : Type 0} (d f : Error) → Path (Result C) (stop d) (stop f) → d ≡ f
    of_stop d f h = cc

pub Safe-ok : {A : Type 0} (a : A) → Safe (ok a)
Safe-ok a = ((λ h. cc), (λ h. cc))

pub bind_value-fuel : (p : Param) (group : ℕ) → bind_value p group ≢ stop out_of_fuel
unfolding bind_value
bind_value-fuel p group h = ground arith

-- What a call that ends leaves, with the parameters' row the same.
abbrev pub Bound : {Stmt A : Type 0} → ResultImpl Stmt → Result A × ResultImpl Stmt → Type 0
Bound r out = Safe out.0 × (Kept r out.1 × (out.1.group ≡ r.group))

-- A round goes on only if there is another row of the parameters.
abbrev pub Stepped : {Stmt : Type 0} → ResultImpl Stmt → Result Bool × ResultImpl Stmt → Type 0
Stepped r out =
    Safe out.0
    × (Kept r out.1 × (out.0 ≡ ok true → (r.group < out.1.group) × (out.1.group < out.1.groups)))

abbrev pub Ended : {Stmt A : Type 0} → ResultImpl Stmt → Result A × ResultImpl Stmt → Type 0
Ended r out = Safe out.0 × Kept r out.1
