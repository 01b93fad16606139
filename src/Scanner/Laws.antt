-- ===== src/Scanner/Laws.antt =====
-- scanner.py: the meaning of the filters.
use media_refinery.Config.Checks.{outside}
use media_refinery.Common.{
  subst, ◌==◌, Bool-cases, eq_iff, inl, inr, List, Option, String, [], arith, contains, false, none,
  none-ne-some, refl, some, true, ℕ, ◌∷◌, ◌≡◌, ◌≤◌, ◌⊎◌,
}
use media_refinery.Scanner.{
  is_nil, ScannerFilters, asset_timestamp, is_disjoint, is_recent, matches_filters,
}
use media_refinery.Client.{AssetRef}
use mathlib.Core.Option.{some-injective}

-- Two lists of names have a name in common.
abbrev pub Shared : List String → List String → Type 0
Shared xs ys = (x : String) × (contains xs x ≡ true) × (contains ys x ≡ true)

-- An asset that a scan looks at: its media type is asked for, its archive and favourite flags are
-- allowed, its albums fit, and it is not older than the time that the scan starts from.
pub record Passes (f : ScannerFilters) (asset : AssetRef) : Type 0 where
  pub typed : contains f.media_types asset.media_type ≡ true
  pub unarchived : asset.archived ≡ true → f.include_archived ≡ true
  pub favored : asset.favorite ≡ true → f.include_favorites ≡ true
  pub included : (f.include_albums ≡ []) ⊎ (Shared asset.albums f.include_albums)
  pub not_excluded :
      (x : String) → contains asset.albums x ≡ true → contains f.exclude_albums x ≡ false
  pub recent :
      (since : ℕ) → f.since ≡ some since → (t : ℕ) × (asset_timestamp asset ≡ some t) × (since ≤ t)

is_disjoint_apart :
    (xs ys : List String)
    → is_disjoint xs ys ≡ true
    → (x : String) → contains xs x ≡ true
    → contains ys x ≡ false
unfolding is_disjoint contains
is_disjoint_apart [] ys h x k = absurd (ground arith)
is_disjoint_apart (z ∷ xs) ys h x k = elim (Bool-cases (z == x)) [
  | inl same ↦
      let e : z ≡ x = ground (arith, eq_iff z x) in
      subst (λ y. contains ys y ≡ false) e (ground arith)
  | inr other ↦ is_disjoint_apart xs ys (ground arith) x (ground arith)
]

is_disjoint_nil : (xs : List String) → is_disjoint xs [] ≡ true
unfolding is_disjoint contains
is_disjoint_nil [] = refl
is_disjoint_nil (x ∷ xs) = is_disjoint_nil xs

is_disjoint-Shared : (xs ys : List String) → is_disjoint xs ys ≡ false → Shared xs ys
unfolding is_disjoint contains
is_disjoint-Shared [] ys h = absurd (ground arith)
is_disjoint-Shared (z ∷ xs) ys h = elim (Bool-cases (contains ys z)) [
  | inl inside ↦ (z, ground (arith, eq_iff z z), inside)
  | inr outside ↦
      let (x, here, there) = is_disjoint-Shared xs ys (ground arith) in (x, ground arith, there)
]

recent_of :
    (since t : Option ℕ)
    → is_recent since t ≡ true
    → (s : ℕ) → since ≡ some s
    → (u : ℕ) × (t ≡ some u) × (s ≤ u)
unfolding is_recent
recent_of none t h s e = absurd (none-ne-some e)
recent_of (some a) none h s e = absurd (ground arith)
recent_of (some a) (some b) h s e = (b, refl, ground (arith, some-injective _ _ e))

is_nil_eq : (xs : List String) → is_nil xs ≡ true → xs ≡ []
is_nil_eq [] h = refl
is_nil_eq (x ∷ xs) h = absurd (ground arith)

-- An asset that the filters let through has a media type that is asked for, is archived or a
-- favourite only where these are included, shares an album with the albums to include if there are
-- any, is in none to exclude, and has a timestamp no older than the one to start from.
pub matches_filters-Passes :
    (f : ScannerFilters) (asset : AssetRef) → matches_filters f asset ≡ true → Passes f asset
unfolding matches_filters contains
matches_filters-Passes f asset h = record {
  typed = ground arith;
  unarchived = λ a. ground arith;
  favored = λ a. ground arith;
  included = elim (Bool-cases (is_nil f.include_albums)) [
    | inl e ↦ inl (is_nil_eq f.include_albums e)
    | inr e ↦ inr (is_disjoint-Shared asset.albums f.include_albums (ground arith))
  ];
  not_excluded = elim (Bool-cases (is_nil f.exclude_albums)) [
    | inl e ↦ λ x k. rw (is_nil_eq f.exclude_albums e) refl
    | inr e ↦ is_disjoint_apart asset.albums f.exclude_albums (ground arith)
  ];
  recent = recent_of f.since (asset_timestamp asset) (ground arith);
}
