-- ===== src/Client.antt =====
-- immich.py: what an Immich client promises to the rest of the program. A call may change the client's
-- world and may raise; what it wrote before it raised stays written.
pub mod Mock
pub mod View
use media_refinery.Common.{
  Bool, Fault, List, Option, Outcome, String, false, raised, returned, true, ℕ, ℤ,
}
use media_refinery.Common.Dict.{Dict}

-- A datetime with no zone, or one with a zone as the instant it stands for, in seconds of UTC.
pub data DateTime : Type 0 where
  naive : ℕ → DateTime
  aware : ℕ → DateTime

pub record AssetRef : Type 0 where
  pub asset_id : String
  pub media_type : String
  pub checksum : Option String
  pub metadata : Dict String
  pub albums : List String
  pub archived : Bool
  pub favorite : Bool
  pub created_at : Option DateTime
  pub updated_at : Option DateTime

pub record ImmichCapabilities : Type 0 where
  pub albums : Bool
  pub tags : Bool
  pub archive : Bool
  pub locked_folder : Bool

abbrev pub default_capabilities : ImmichCapabilities
default_capabilities = record {
  albums = true;
  tags = false;
  archive = false;
  locked_folder = false;
}

-- The attribute `capabilities` of a client, called where it is callable: missing, a record of
-- capabilities, or another object of which each attribute may be missing.
pub data Reported : Type 0 where
  absent : Reported
  capable : ImmichCapabilities → Reported
  duck : Option Bool → Option Bool → Option Bool → Option Bool → Reported

abbrev pub Call : Type 0 → Type 0 → Type 0
Call W A = W → Outcome Fault A × W

-- The calls of the protocol `ImmichClient` that a scan makes.
pub record Client (W : Type 0) : Type 0 where
  pub reported : W → Reported
  pub list_assets : Option String → ℤ → Call W (List AssetRef × Option String)
  pub get_preview_bytes : String → Call W (List ℕ)
  pub find_album_by_name : String → Call W (Option String)
  pub create_or_get_album : String → Call W String
  pub add_to_album : String → List String → Call W Unit
  pub find_tag_by_name : String → Call W (Option String)
  pub create_or_get_tag : String → Call W String
  pub add_tag_to_asset : String → String → Call W Unit
  pub archive_asset : String → Call W Unit
  pub set_asset_visibility : String → String → Call W Unit

-- A call after a call; an exception of the first ends both.
abbrev pub resume : {W A B : Type 0} → (A → Call W B) → Outcome Fault A × W → Outcome Fault B × W
resume f (returned a, w) = f a w
resume f (raised e, w) = (raised e, w)

abbrev pub and_then : {W A B : Type 0} → Call W A → (A → Call W B) → Call W B
and_then m f w = resume f (m w)

abbrev pub give : {W A : Type 0} → A → Call W A
give a w = (returned a, w)

abbrev pub fail : {W A : Type 0} → Fault → Call W A
fail e w = (raised e, w)
