-- ===== src/Pipeline/Loop.antt =====
-- pipeline.py: properties of the progress through the loops over pages and assets.
use mathlib.Core.Option.{some-injective}
use media_refinery.Common.{
  >>=-eq-returned, Fault, List, Option, Outcome, String, [], none, raised, raised-ne-returned, refl,
  returned, returned-injective, some, subst, suc, zero, ℕ, ◌∷◌, ◌≡◌,
}
use media_refinery.Classifier.{Scores}
use media_refinery.Client.{AssetRef}
use media_refinery.Pipeline.{
  Progress, Scan, continue_pages, visit, visit_all, visit_page, visit_pages,
}

module _ {scores : Scores} {W : Type 0} (scan : Scan scores W) (Holds : Progress W → Type 0) where
  module _
      (of_visit : (asset : AssetRef) (p p' : Progress W)
        → visit scan asset p ≡ returned p'
        → Holds p
        → Holds p') where
    pub visit_all-keeps :
        (assets : List AssetRef) (p : Progress W) {p' : Progress W}
        → visit_all scan assets p ≡ returned p'
        → Holds p
        → Holds p'
    unfolding visit_all
    visit_all-keeps [] p h k = subst (Holds) (returned-injective h) k
    visit_all-keeps (a ∷ assets) p h k =
        let (q, visited, rest) = >>=-eq-returned (visit scan a p) _ h in
        visit_all-keeps assets q rest (of_visit a p q visited k)

    continue_pages-keeps :
        (token : Option String) (r : Outcome Fault (Progress W))
        (next : String → Progress W → Option (Outcome Fault (Progress W))) (p' : Progress W)
        → ((t : String) (q : Progress W) → next t q ≡ some (returned p') → Holds q → Holds p')
        → ((q : Progress W) → r ≡ returned q → Holds q)
        → continue_pages scan token r next ≡ some (returned p')
        → Holds p'
    continue_pages-keeps none r next p' ih k h = k p' (some-injective _ _ h)
    continue_pages-keeps (some t) (raised x) next p' ih k h =
        absurd (raised-ne-returned (some-injective _ _ h))
    continue_pages-keeps (some t) (returned q) next p' ih k h = ih t q h (k q refl)

    visit_page-keeps :
        (r : Outcome Fault (List AssetRef × Option String)) (p : Progress W)
        (next : String → Progress W → Option (Outcome Fault (Progress W))) (p' : Progress W)
        → ((t : String) (q : Progress W) → next t q ≡ some (returned p') → Holds q → Holds p')
        → visit_page scan r p next ≡ some (returned p')
        → Holds p
        → Holds p'
    visit_page-keeps (raised x) p next p' ih h k =
        absurd (raised-ne-returned (some-injective _ _ h))
    visit_page-keeps (returned (assets, token)) p next p' ih h k =
        continue_pages-keeps token (visit_all scan assets p) next p' ih
          (λ q visited. visit_all-keeps assets p visited k) h

    pub visit_pages-keeps :
        ((token : Option String) (p : Progress W)
          → Holds p
          → Holds (record p { world = (scan.client.list_assets token scan.page_size p.world).1 }))
        → (fuel : ℕ) (token : Option String) (p p' : Progress W)
        → visit_pages scan fuel token p ≡ some (returned p')
        → Holds p
        → Holds p'
    unfolding visit_pages
    visit_pages-keeps of_list zero token p p' h k = cc
    visit_pages-keeps of_list (suc fuel) token p p' h k =
        visit_page-keeps _ _ _ p' (λ t q. visit_pages-keeps of_list fuel (some t) q p') h
          (of_list token p k)
