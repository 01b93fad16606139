-- ===== src/Client/View.antt =====
-- immich.py: a view of a client's world and its calls.
use media_refinery.Common.{
  none, some, Fault, List, Option, Outcome, String, raised, refl, returned, ℤ, ◌∙◌, ◌≡◌,
}
use media_refinery.Client.{Call, Client, and_then, resume}

-- Every call of the client keeps the view.
pub record Preserves {W V : Type 0} (client : Client W) (view : W → V) : Type 0 where
  pub list_assets :
      (token : Option String) (size : ℤ) (w : W) → view (client.list_assets token size w).1 ≡ view w
  pub get_preview_bytes : (id : String) (w : W) → view (client.get_preview_bytes id w).1 ≡ view w
  pub find_album_by_name :
      (name : String) (w : W) → view (client.find_album_by_name name w).1 ≡ view w
  pub create_or_get_album :
      (name : String) (w : W) → view (client.create_or_get_album name w).1 ≡ view w
  pub add_to_album :
      (id : String) (assets : List String) (w : W)
      → view (client.add_to_album id assets w).1 ≡ view w
  pub find_tag_by_name : (name : String) (w : W) → view (client.find_tag_by_name name w).1 ≡ view w
  pub create_or_get_tag :
      (name : String) (w : W) → view (client.create_or_get_tag name w).1 ≡ view w
  pub add_tag_to_asset :
      (id tag : String) (w : W) → view (client.add_tag_to_asset id tag w).1 ≡ view w
  pub archive_asset : (id : String) (w : W) → view (client.archive_asset id w).1 ≡ view w
  pub set_asset_visibility :
      (id visibility : String) (w : W)
      → view (client.set_asset_visibility id visibility w).1 ≡ view w

module _ {W V A B : Type 0} (view : W → V) where
  pub resume-Preserves :
      (f : A → Call W B) (r : Outcome Fault A × W)
      → ((a : A) (w : W) → view (f a w).1 ≡ view w)
      → view (resume f r).1 ≡ view r.1
  resume-Preserves f (returned a, w) h = h a w
  resume-Preserves f (raised e, w) h = refl

  pub and_then-Preserves :
      (m : Call W A) (f : A → Call W B) (w : W)
      → view (m w).1 ≡ view w
      → ((a : A) (u : W) → view (f a u).1 ≡ view u)
      → view (and_then m f w).1 ≡ view w
  and_then-Preserves m f w h k = resume-Preserves f (m w) k ∙ h

  pub found-Preserves :
      (o : Option A) (missing : Call W B) (found : A → Call W B)
      → ((w : W) → view (missing w).1 ≡ view w)
      → ((a : A) (w : W) → view (found a w).1 ≡ view w)
      → (w : W)
      → view ((elim o as (λ _. Call W B) [ none ↦ missing | some a ↦ found a ]) w).1 ≡ view w
  found-Preserves none missing found h k w = h w
  found-Preserves (some a) missing found h k w = k a w
