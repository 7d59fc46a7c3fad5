-- ===== src/Proton.antt =====
-- Data of the packages that the program calls (go-proton-api), with the fields that the program
-- reads. None of this is code of the repository.
use proton_api_bridge.Common.{ℕ, String, Option, Bool, true, false, List, Map, ◌≡◌, refl}
use proton_api_bridge.Int.{ℤ}

pub data LinkType : Type 0 where
  folder file : LinkType

pub data LinkState : Type 0 where
  draft active trashed deleted restoring : LinkState

pub data RevisionState : Type 0 where
  draft active obsolete : RevisionState

abbrev pub is_folder : LinkType → Bool
is_folder folder = true
is_folder file = false

abbrev pub same_type : LinkType → LinkType → Bool
same_type folder folder = true
same_type file file = true
same_type _ _ = false

abbrev pub same_state : LinkState → LinkState → Bool
same_state LinkState.draft LinkState.draft = true
same_state LinkState.active LinkState.active = true
same_state trashed trashed = true
same_state deleted deleted = true
same_state restoring restoring = true
same_state _ _ = false

-- The test is true of equal ones only.
pub LinkType-same : (a b : LinkType) → same_type a b ≡ true → a ≡ b
LinkType-same folder folder e = refl
LinkType-same folder file e = absurd (cc e)
LinkType-same file folder e = absurd (cc e)
LinkType-same file file e = refl

pub same_type_refl : (a : LinkType) → same_type a a ≡ true
same_type_refl folder = refl
same_type_refl file = refl

-- The test is true of equal ones only.
pub LinkState-same : (a b : LinkState) → same_state a b ≡ true → a ≡ b
LinkState-same LinkState.draft LinkState.draft e = refl
LinkState-same LinkState.draft LinkState.active e = absurd (cc e)
LinkState-same LinkState.draft trashed e = absurd (cc e)
LinkState-same LinkState.draft deleted e = absurd (cc e)
LinkState-same LinkState.draft restoring e = absurd (cc e)
LinkState-same LinkState.active LinkState.draft e = absurd (cc e)
LinkState-same LinkState.active LinkState.active e = refl
LinkState-same LinkState.active trashed e = absurd (cc e)
LinkState-same LinkState.active deleted e = absurd (cc e)
LinkState-same LinkState.active restoring e = absurd (cc e)
LinkState-same trashed LinkState.draft e = absurd (cc e)
LinkState-same trashed LinkState.active e = absurd (cc e)
LinkState-same trashed trashed e = refl
LinkState-same trashed deleted e = absurd (cc e)
LinkState-same trashed restoring e = absurd (cc e)
LinkState-same deleted LinkState.draft e = absurd (cc e)
LinkState-same deleted LinkState.active e = absurd (cc e)
LinkState-same deleted trashed e = absurd (cc e)
LinkState-same deleted deleted e = refl
LinkState-same deleted restoring e = absurd (cc e)
LinkState-same restoring LinkState.draft e = absurd (cc e)
LinkState-same restoring LinkState.active e = absurd (cc e)
LinkState-same restoring trashed e = absurd (cc e)
LinkState-same restoring deleted e = absurd (cc e)
LinkState-same restoring restoring e = refl

pub same_state_refl : (a : LinkState) → same_state a a ≡ true
same_state_refl LinkState.draft = refl
same_state_refl LinkState.active = refl
same_state_refl trashed = refl
same_state_refl deleted = refl
same_state_refl restoring = refl

abbrev pub same_revision_state : RevisionState → RevisionState → Bool
same_revision_state RevisionState.draft RevisionState.draft = true
same_revision_state RevisionState.active RevisionState.active = true
same_revision_state obsolete obsolete = true
same_revision_state _ _ = false

-- The test is true of equal ones only.
pub RevisionState-same : (a b : RevisionState) → same_revision_state a b ≡ true → a ≡ b
RevisionState-same RevisionState.draft RevisionState.draft e = refl
RevisionState-same RevisionState.draft RevisionState.active e = absurd (cc e)
RevisionState-same RevisionState.draft obsolete e = absurd (cc e)
RevisionState-same RevisionState.active RevisionState.draft e = absurd (cc e)
RevisionState-same RevisionState.active RevisionState.active e = refl
RevisionState-same RevisionState.active obsolete e = absurd (cc e)
RevisionState-same obsolete RevisionState.draft e = absurd (cc e)
RevisionState-same obsolete RevisionState.active e = absurd (cc e)
RevisionState-same obsolete obsolete e = refl

pub same_revision_state_refl : (a : RevisionState) → same_revision_state a a ≡ true
same_revision_state_refl RevisionState.draft = refl
same_revision_state_refl RevisionState.active = refl
same_revision_state_refl obsolete = refl

abbrev pub Bytes : Type 0
Bytes = List ℕ

pub record RevisionMetadata : Type 0 where
  pub id : String
  pub state : RevisionState
  pub signature_email : String
  pub x_attr : String

pub record Link : Type 0 where
  pub link_id : String
  pub parent_link_id : String
  pub type : LinkType
  pub state : LinkState
  pub hash : String
  pub size : ℤ
  pub name_signature_email : String
  pub signature_email : String
  pub node_key : String
  pub node_passphrase : String
  pub node_passphrase_signature : String
  pub x_attr : String
  pub file_properties : Option RevisionMetadata

-- `Revision.Blocks`
pub record Block : Type 0 where
  pub bare_url : String
  pub token : String
  pub hash : String
  pub enc_signature : String

pub record Revision : Type 0 where
  pub metadata : RevisionMetadata
  pub blocks : List Block

-- The decrypted extended attributes; a nil slice is `none`.
pub record RevisionXAttrCommon : Type 0 where
  pub modification_time : String
  pub size : ℤ
  pub block_sizes : Option (List ℤ)
  pub digests : Map String

pub record Share : Type 0 where
  pub share_id : String
  pub volume_id : String
  pub link_id : String
  pub address_id : String
  pub creator : String

pub record Address : Type 0 where
  pub id : String
  pub email : String

-- The requests that the program fills in field by field.
pub record CreateFileReq : Type 0 where
  pub parent_link_id : String
  pub name : String
  pub hash : String
  pub mime_type : String
  pub content_key_packet : String
  pub content_key_packet_signature : String
  pub node_key : String
  pub node_passphrase : String
  pub node_passphrase_signature : String
  pub signature_address : String

pub record CreateFileRes : Type 0 where
  pub id : String
  pub revision_id : String

pub record BlockUploadInfo : Type 0 where
  pub index : ℕ
  pub size : ℕ
  pub enc_signature : String
  pub hash : String
  pub verifier_token : Option String

pub record BlockUploadReq : Type 0 where
  pub address_id : String
  pub share_id : String
  pub volume_id : Option String
  pub link_id : String
  pub revision_id : String
  pub block_list : List BlockUploadInfo

pub record BlockUploadLink : Type 0 where
  pub bare_url : String
  pub token : String

pub record CommitRevisionReq : Type 0 where
  pub manifest_signature : String
  pub signature_address : String
  pub x_attr : String

pub record CreateFolderReq : Type 0 where
  pub parent_link_id : String
  pub name : String
  pub hash : String
  pub node_key : String
  pub node_hash_key : String
  pub node_passphrase : String
  pub node_passphrase_signature : String
  pub signature_address : String

pub record MoveLinkReq : Type 0 where
  pub parent_link_id : String
  pub name : String
  pub hash : String
  pub original_hash : String
  pub node_passphrase : String
  pub name_signature_email : Option String
