-- ===== src/Borgrepo/Place/Others.antt =====
-- Paths of a tenant's repository and of other tenants.
use ngxborg.Base.{◌≡◌, ◌≢◌, refl, sym, true, false, List, [], ◌∷◌, ◌++◌, arith}
use ngxborg.Text.{Text, text_eq, split}
use ngxborg.Text.Search.{text_eq_ne}
use ngxborg.Text.FilePath.{components, clean_from, clean_step, pops, join_path}
use ngxborg.Machine.Fs.{path_eq, is_above}
use ngxborg.Borgrepo.Name.{valid_name}
use ngxborg.Borgrepo.Place.{base, trash_base, repo_dir}
use ngxborg.Borgrepo.Place.Confined.{
  valid_name-IsSegment, base_components, components-repo_dir, components-tenant_dir,
}
use ngxborg.Borgrepo.Trash.Located.{trash_components}

-- A path in the directory of the tenant, or the directory itself.
abbrev pub tenant_path : Text → List Text → List Text
tenant_path u rest = base_components ++ u ∷ rest

repo_above :
    (t n u : Text) (rest : List Text)
    → t ≢ u
    → is_above (base_components ++ t ∷ n ∷ []) (tenant_path u rest) ≡ false
unfolding is_above text_eq
repo_above t n u rest h = ground (arith, text_eq_ne t u h)

repo_same :
    (t n u : Text) (rest : List Text)
    → t ≢ u
    → path_eq (base_components ++ t ∷ n ∷ []) (tenant_path u rest) ≡ false
unfolding path_eq text_eq
repo_same t n u rest h = ground (arith, text_eq_ne t u h)

pub trash_above :
    (name u : Text) (rest : List Text)
    → is_above (trash_components ++ name ∷ []) (tenant_path u rest) ≡ false
unfolding is_above text_eq
trash_above name u rest = refl

pub above_trash :
    (u : Text) (rest : List Text) → is_above (tenant_path u rest) (components trash_base) ≡ false
unfolding is_above text_eq trash_base components clean_from clean_step pops split
above_trash u rest = refl

tenant_same :
    (t u : Text) (rest : List Text)
    → t ≢ u
    → path_eq (base_components ++ t ∷ []) (tenant_path u rest) ≡ false
unfolding path_eq text_eq
tenant_same t u rest h = ground (arith, text_eq_ne t u h)

above_tenant :
    (t u : Text) (r rest : List Text)
    → t ≢ u
    → is_above (tenant_path u rest) (base_components ++ t ∷ r) ≡ false
unfolding is_above text_eq
above_tenant t u r rest h = ground (arith, text_eq_ne u t (λ e. h (sym e)))

module _ (t n u : Text) (rest : List Text) (ht : valid_name t ≡ true) (hn : valid_name n ≡ true)
    (other : t ≢ u) where
  abbrev q : List Text
  q = tenant_path u rest

  pub located : components (repo_dir t n) ≡ base_components ++ t ∷ n ∷ []
  located = components-repo_dir t n (valid_name-IsSegment t ht) (valid_name-IsSegment n hn)

  pub named : components (repo_dir t n) ≢ []
  named = rw located (λ e. cc)

  pub not_above : is_above (components (repo_dir t n)) q ≡ false
  not_above = rw located (repo_above t n u rest other)

  pub not_same : path_eq (components (repo_dir t n)) q ≡ false
  not_same = rw located (repo_same t n u rest other)

  pub tenant_named : components (join_path (base ∷ t ∷ [])) ≢ []
  tenant_named = rw (components-tenant_dir t (valid_name-IsSegment t ht)) (λ e. cc)

  pub tenant_not_same : path_eq (components (join_path (base ∷ t ∷ []))) q ≡ false
  tenant_not_same =
      rw (components-tenant_dir t (valid_name-IsSegment t ht)) (tenant_same t u rest other)

  pub not_above_tenant : is_above q (components (join_path (base ∷ t ∷ []))) ≡ false
  not_above_tenant =
      rw (components-tenant_dir t (valid_name-IsSegment t ht)) (above_tenant t u [] rest other)

  pub not_above_repo : is_above q (components (repo_dir t n)) ≡ false
  not_above_repo = rw located (above_tenant t u (n ∷ []) rest other)
