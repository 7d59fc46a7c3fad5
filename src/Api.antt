-- ===== src/Api.antt =====
-- The code that the program calls and does not contain, as one record of operations: the client
-- of go-proton-api, gopenpgp, and the hashes and encodings of Go's standard library. `World` is
-- everything outside the process, the server, the clock and the source of randomness; a call
-- that reads or changes it takes it and returns it. A pointer that may be nil is an `Option`.
use proton_api_bridge.Common.{ℕ, String, Bool, Option, List}
use proton_api_bridge.Action.{Outcome, Act, ⊤}
use proton_api_bridge.Proton.{
  Bytes, Link, RevisionMetadata, Revision, RevisionXAttrCommon, CreateFileReq, CreateFileRes,
  BlockUploadReq, BlockUploadLink, CommitRevisionReq, CreateFolderReq, MoveLinkReq,
}

pub record Api : Type 1 where
  pub World : Type 0
  pub KeyRing : Type 0
  pub Key : Type 0
  pub SessionKey : Type 0
  pub Message : Type 0
  pub BlockReader : Type 0
  pub Time : Type 0
  -- Key rings.
  pub new_key_ring : Outcome KeyRing
  pub get_keys : Option KeyRing → Outcome (List Key)
  pub add_key : KeyRing → Key → Outcome KeyRing
  pub count_entities : KeyRing → ℕ
  pub key_from_armored : String → Outcome Key
  pub unlock : Key → Bytes → Outcome Key
  pub key_ring_of : Key → Outcome KeyRing
  -- Messages and signatures.
  pub message_from_armored : String → Outcome Message
  pub get_armored : Message → Outcome String
  pub encrypt : KeyRing → Bytes → Act World Message
  pub decrypt : KeyRing → Message → ℕ → Outcome Bytes
  pub sign_detached : Option KeyRing → Bytes → Act World Message
  pub verify_detached : Option KeyRing → Bytes → Message → ℕ → Outcome ⊤
  pub sign_detached_encrypted : Option KeyRing → Bytes → KeyRing → Act World Message
  pub verify_detached_encrypted : KeyRing → Bytes → Message → KeyRing → ℕ → Outcome ⊤
  pub unix_time : World → ℕ
  -- Session keys.
  pub session_encrypt : SessionKey → Bytes → Act World Bytes
  pub session_decrypt : SessionKey → Bytes → Outcome Bytes
  pub split_armored : String → Outcome (Bytes × Bytes)
  pub decrypt_session_key : KeyRing → Bytes → Outcome SessionKey
  pub encrypt_session_key : KeyRing → SessionKey → Act World Bytes
  pub armor_split : Bytes → Bytes → Outcome String
  -- Randomness and key generation.
  pub random_token : ℕ → Act World Bytes
  pub generate_key : String → String → Bytes → String → ℕ → Act World String
  -- Hashes and encodings.
  pub sha256 : Bytes → Bytes
  pub sha1 : Bytes → Bytes
  pub base64_encode : Bytes → String
  pub base64_decode : String → Outcome Bytes
  pub hex_encode : Bytes → String
  pub bytes_of : String → Bytes
  pub to_lower : String → String
  pub parse_time : String → Outcome Time
  pub format_time : Time → String
  -- The methods of links, revisions and requests of go-proton-api.
  pub link_get_key_ring : Link → KeyRing → KeyRing → Outcome KeyRing
  pub link_get_session_key : Link → KeyRing → Outcome SessionKey
  pub link_get_name : Link → KeyRing → KeyRing → Outcome String
  pub link_get_hash_key : Link → KeyRing → KeyRing → Outcome Bytes
  pub get_name_hash : String → Bytes → Outcome String
  pub get_dec_x_attr : RevisionMetadata → KeyRing → KeyRing → Outcome (Option RevisionXAttrCommon)
  pub encrypt_name : String → Option KeyRing → KeyRing → Act World String
  pub enc_x_attr : Option KeyRing → KeyRing → RevisionXAttrCommon → Act World String
  pub set_content_key_packet : CreateFileReq → KeyRing → Act World (CreateFileReq × SessionKey)
  -- The client's calls.
  pub get_link : String → String → Act World Link
  pub list_children : String → String → Bool → Act World (Option (List Link))
  pub trash_children : String → String → List String → Act World ⊤
  pub delete_children : String → String → List String → Act World ⊤
  pub empty_trash : String → Act World ⊤
  pub check_available_hashes : String → String → List String → Act World (List String)
  pub list_revisions : String → String → Act World (List RevisionMetadata)
  pub get_revision_all_blocks : String → String → String → Act World Revision
  pub create_revision : String → String → Act World String
  pub delete_revision : String → String → String → Act World ⊤
  pub create_file : String → CreateFileReq → Act World CreateFileRes
  pub commit_revision : String → String → String → CommitRevisionReq → Act World ⊤
  pub request_block_upload : BlockUploadReq → Act World (List BlockUploadLink)
  pub get_block : String → String → Act World BlockReader
  pub read_all : BlockReader → Act World Bytes
  pub upload_block : Bool → String → String → Bytes → Act World ⊤
  -- The order in which the uploads of a batch come to their ends: each place is that of the next
  -- one among those left.
  pub schedule : ℕ → World → List ℕ
  -- What reflection finds: the two methods of the client for the verification code, given volume
  -- or share, link and revision, with the code and the key packet that they return; and whether
  -- the requests have the two newer fields.
  pub revision_verification_by_volume :
      Option (String → String → String → Act World (String × String))
  pub revision_verification : Option (String → String → String → Act World (String × String))
  pub has_volume_id : Bool
  pub has_verifier : Bool
  -- Folders and moves: the hash key of a new folder, the two methods that move a link by volume or
  -- share, whether the request has the signature's email, and the pause after a move.
  pub node_hash_key : KeyRing → Act World String
  pub create_folder : String → CreateFolderReq → Act World String
  pub move_link_by_volume : Option (String → String → MoveLinkReq → Act World ⊤)
  pub move_link : Option (String → String → MoveLinkReq → Act World ⊤)
  pub has_name_signature_email : Bool
  pub sleep : ℕ → World → World
  -- `mime.TypeByExtension(filepath.Ext(name))`
  pub mime_type_of : String → String
