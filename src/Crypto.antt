-- ===== src/Crypto.antt =====
-- crypto.go: the keys of new nodes, and a key packet for another key ring.
use proton_api_bridge.Common.{String, Option}
use proton_api_bridge.Action.{Act, pure, lift, gets, ◌>>=◌, ◌>>◌}
use proton_api_bridge.Proton.{Bytes}
use proton_api_bridge.Api.{Api}

module _ (api : Api) where
  -- `generatePassphrase`
  unfoldable pub generate_passphrase : Act api.World String
  generate_passphrase = do token ← api.random_token 32; pure (api.base64_encode token)

  -- `generateCryptoKey`: the passphrase and the key.
  unfoldable pub generate_crypto_key : Act api.World (String × String)
  unfolding generate_passphrase
  generate_crypto_key = do
    passphrase ← generate_passphrase
    key ← api.generate_key "Drive key" "noreply@protonmail.com" (api.bytes_of passphrase) "x25519" 0
    pure (passphrase, key)

  -- `encryptWithSignature`
  unfoldable pub encrypt_with_signature :
      api.KeyRing → Option api.KeyRing → Bytes → Act api.World (String × String)
  encrypt_with_signature kr addr_kr b = do
    enc ← api.encrypt kr b
    enc_arm ← lift (api.get_armored enc)
    sig ← api.sign_detached addr_kr b
    sig_arm ← lift (api.get_armored sig)
    pure (enc_arm, sig_arm)

  -- `generateNodeKeys`: the key, the encrypted passphrase and its signature.
  unfoldable pub generate_node_keys :
      api.KeyRing → Option api.KeyRing → Act api.World (String × String × String)
  unfolding generate_crypto_key encrypt_with_signature
  generate_node_keys kr addr_kr = do
    (passphrase, node_key) ← generate_crypto_key
    (passphrase_enc, passphrase_signature) ←
        encrypt_with_signature kr addr_kr (api.bytes_of passphrase)
    pure (node_key, passphrase_enc, passphrase_signature)

  -- `reencryptKeyPacket`
  unfoldable pub reencrypt_key_packet : api.KeyRing → api.KeyRing → String → Act api.World String
  reencrypt_key_packet src_kr dst_kr passphrase = do
    (key_packet, data_packet) ← lift (api.split_armored passphrase)
    session_key ← lift (api.decrypt_session_key src_kr key_packet)
    new_key_packet ← api.encrypt_session_key dst_kr session_key
    lift (api.armor_split new_key_packet data_packet)

  -- `getKeyRing`
  unfoldable pub get_key_ring :
      api.KeyRing → Option api.KeyRing → String → String → String → Act api.World api.KeyRing
  get_key_ring kr addr_kr key passphrase passphrase_signature = do
    enc ← lift (api.message_from_armored passphrase)
    now ← gets api.unix_time
    dec ← lift (api.decrypt kr enc now)
    sig ← lift (api.message_from_armored passphrase_signature)
    later ← gets api.unix_time
    lift (api.verify_detached addr_kr dec sig later)
    locked_key ← lift (api.key_from_armored key)
    unlocked_key ← lift (api.unlock locked_key dec)
    lift (api.key_ring_of unlocked_key)
