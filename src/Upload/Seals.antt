-- ===== src/Upload/Seals.antt =====
-- file_upload.go, `uploadAndCollectBlockData`: the encrypted blocks of a file.
use proton_api_bridge.Common.{
  none, some, if◌then◌else◌, ℕ, ◌+◌, String, List, [], ◌∷◌, length, map, ◌≡◌,
}
use proton_api_bridge.Action.{ok}
use proton_api_bridge.Proton.{Bytes}
use proton_api_bridge.Api.{Api}
use proton_api_bridge.Drive.{Drive}
use proton_api_bridge.Upload.Tokens.{build_verification_token}
use proton_api_bridge.Upload.Batch.{PendingUploadBlock}
use proton_api_bridge.Upload.Accepted.{Delivery, Accepts}

module _ (api : Api) (drive : Drive api) (session_key : api.SessionKey) (node_kr : api.KeyRing)
    (link_id revision_id : String) where
  -- Every block can be encrypted and signed, none of which reaches the server's blocks; what is
  -- encrypted with the session key is decrypted with it.
  pub record Seals (got : api.World → List Delivery) : Type 0 where
    pub accepts : Accepts api got
    pub sealed :
        (content : Bytes) (w : api.World)
        → (enc : Bytes) × (w' : api.World) × (api.session_encrypt session_key content w
            ≡ (ok enc, w'))
          × (api.session_decrypt session_key enc ≡ ok content)
          × (got w' ≡ got w)
    pub signed :
        (content : Bytes) (w : api.World)
        → (m : api.Message) × (text : String) × (w' : api.World) × (api.sign_detached_encrypted
              drive.default_addr_kr content node_kr w
            ≡ (ok m, w'))
          × (api.get_armored m ≡ ok text)
          × (got w' ≡ got w)

  module _ (code : Bytes) where
    -- The block of this number that hides this content: its bytes are decrypted to the content,
    -- and it is announced with their length and hash, a signature of the content, and the
    -- verifier's token.
    pub record IsBlock (i : ℕ) (content : Bytes) (b : PendingUploadBlock) : Type 0 where
      pub opens : api.session_decrypt session_key b.enc_data ≡ ok content
      pub index : b.block_upload_info.index ≡ i
      pub size : b.block_upload_info.size ≡ length b.enc_data
      pub hash : b.block_upload_info.hash ≡ api.base64_encode (api.sha256 b.enc_data)
      pub token : b.block_upload_info.verifier_token ≡ (
          if api.has_verifier
          then some (api.base64_encode (build_verification_token code b.enc_data))
          else none)
      pub signature :
          (m : api.Message) × (w : api.World) × (w' : api.World) × (api.sign_detached_encrypted
              drive.default_addr_kr content node_kr w
            ≡ (ok m, w'))
          × (api.get_armored m ≡ ok b.block_upload_info.enc_signature)

    -- The blocks of these contents, numbered from here on.
    pub data AreBlocks : ℕ → List Bytes → List PendingUploadBlock → Type 0 where
      no_block : {i : ℕ} → AreBlocks i [] []
      next_block :
          {i : ℕ} {content : Bytes} {contents : List Bytes} {b : PendingUploadBlock}
          {blocks : List PendingUploadBlock}
          → IsBlock i content b
          → AreBlocks (i + 1) contents blocks
          → AreBlocks i (content ∷ contents) (b ∷ blocks)

-- What the blocks hold, and what was sent.
abbrev pub held : List PendingUploadBlock → List Bytes
held blocks = map (λ b. b.enc_data) blocks

abbrev pub bytes_sent : List Delivery → List Bytes
bytes_sent sent = map (λ d. d.enc_data) sent
