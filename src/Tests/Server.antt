-- ===== src/Tests/Server.antt =====
-- A small server: every link but `root` stands in `root`, and a file has two blocks. The links'
-- key rings at concrete data.
use proton_api_bridge.Common.{
  ℕ, zero, suc, ◌+◌, map, String, Bool, true, false, none, some, List, [], ◌∷◌, ◌==◌, ◌≡◌, refl, ap,
  sym, lookup, arith, if◌then◌else◌,
}
use proton_api_bridge.Int.{pos}
use proton_api_bridge.Action.{api_error, Outcome, ok, err, other, bind}
use proton_api_bridge.Proton.{RevisionMetadata, RevisionState, Bytes, Link, LinkType, LinkState}
use proton_api_bridge.Api.{Api}
use proton_api_bridge.Drive.{
  Drive, St, add_keys, add_keys_from_kr, add_addresses, get_signature_verification_keyring,
}
use proton_api_bridge.Cache.{new_cache}
use proton_api_bridge.Cache.Consistency.{new_cache-IsConsistent}
use proton_api_bridge.Links.{get_link, get_link_kr}
use proton_api_bridge.Links.Server.{Serves, Unlocks, Resolves, root, below, Coherent, Runs}
use proton_api_bridge.Links.Reading.{get_link_run}
use proton_api_bridge.Links.KeyRings.{get_link_kr_cached_lem}
use proton_api_bridge.Links.Uncached.{get_link_kr_uncached_lem, caching_transparent}

abbrev pub link_at : String → Link
link_at link_id = record {
  link_id = link_id;
  parent_link_id = if link_id == "root" then "" else "root";
  type = if link_id == "notes" then LinkType.file else LinkType.folder;
  state = LinkState.active;
  hash = link_id;
  size = pos 5;
  name_signature_email = "me";
  signature_email = "me";
  node_key = "";
  node_passphrase = "";
  node_passphrase_signature = "";
  x_attr = "";
  file_properties = none;
}

abbrev pub served : String → Outcome Link
served link_id = ok (link_at link_id)

-- What the two blocks hold.
abbrev pub stored : String → Bytes
stored url = if url == "first" then 1 ∷ 2 ∷ 3 ∷ [] else 4 ∷ 5 ∷ []

abbrev pub draft_revision : RevisionMetadata
draft_revision = record {
  id = "draft";
  state = RevisionState.draft;
  signature_email = "me";
  x_attr = "";
}

-- The uploads of a batch end in the order from the last to the first.
abbrev pub last_first : ℕ → List ℕ
last_first zero = []
last_first (suc n) = n ∷ last_first n

module _ (World : Type 0) (next : World → World) (clock : World → ℕ) (wait : ℕ → World → World)
    (take_block : String → String → Bytes → World → World) (opened : Bytes → Bytes) where
  -- The server, on a state that its changes, the time and the blocks that it takes change.
  abbrev pub api_on : Api
  api_on = record {
    World = World;
    KeyRing = ℕ;
    Key = ℕ;
    SessionKey = ℕ;
    Message = Bytes;
    BlockReader = Bytes;
    Time = ℕ;
    new_key_ring = ok 0;
    get_keys = λ kr. elim kr [ some k ↦ ok (k ∷ []) | none ↦ ok [] ];
    add_key = λ kr key. ok (kr + 1);
    count_entities = λ kr. kr;
    key_from_armored = λ text. ok 1;
    unlock = λ key passphrase. ok key;
    key_ring_of = λ key. ok key;
    message_from_armored = λ text. ok [];
    get_armored = λ message. ok "message";
    encrypt = λ kr bytes w. (ok bytes, w);
    decrypt = λ kr message time. ok message;
    sign_detached = λ kr bytes w. (ok bytes, w);
    verify_detached = λ kr bytes message time. ok tt;
    sign_detached_encrypted = λ kr bytes node_kr w. (ok bytes, w);
    verify_detached_encrypted = λ kr bytes message node_kr time. ok tt;
    unix_time = clock;
    session_encrypt = λ key bytes w. (ok (0 ∷ bytes), w);
    session_decrypt = λ key bytes. ok (opened bytes);
    split_armored = λ text. ok ([], []);
    decrypt_session_key = λ kr bytes. ok 1;
    encrypt_session_key = λ kr key w. (ok [], w);
    armor_split = λ packet rest. ok "armored";
    random_token = λ n w. (ok (1 ∷ []), next w);
    generate_key = λ name email passphrase kind bits w. (ok "key", next w);
    sha256 = λ bytes. bytes;
    sha1 = λ bytes. bytes;
    base64_encode = λ bytes. "hash";
    base64_decode = λ text. ok (3 ∷ 5 ∷ []);
    hex_encode = λ bytes. "hex";
    bytes_of = λ text. [];
    to_lower = λ text. text;
    parse_time = λ text. ok 0;
    format_time = λ time. "now";
    link_get_key_ring = λ link parent_kr verification_kr. ok (parent_kr + 1);
    link_get_session_key = λ link kr. ok 1;
    link_get_name = λ link kr verification_kr. ok link.link_id;
    link_get_hash_key = λ link kr verification_kr. ok [];
    get_name_hash = λ name key. ok name;
    get_dec_x_attr = λ revision addr_kr node_kr. ok none;
    encrypt_name = λ name addr_kr parent_kr w. (ok name, w);
    enc_x_attr = λ addr_kr node_kr attrs w. (ok "attrs", w);
    set_content_key_packet = λ req kr w. (ok (req, 1), w);
    get_link = λ share_id link_id w. (served link_id, w);
    list_children = λ share_id link_id all w.
        (ok (some (if link_id == "root" then link_at "notes" ∷ link_at "docs" ∷ [] else [])), w);
    trash_children = λ share_id link_id ids w. (ok tt, next w);
    delete_children = λ share_id link_id ids w. (ok tt, next w);
    empty_trash = λ share_id w. (ok tt, next w);
    check_available_hashes = λ share_id link_id hashes w. (ok [], w);
    list_revisions = λ share_id link_id w. (
      if link_id == "stale"
          then err (api_error 2501)
          else ok (if link_id == "drafted" then draft_revision ∷ [] else []),
      w,
    );
    get_revision_all_blocks = λ share_id link_id revision_id w. (err (other 9), w);
    create_revision = λ share_id link_id w. (ok "revision", next w);
    delete_revision = λ share_id link_id revision_id w. (ok tt, next w);
    create_file = λ share_id req w. (ok (record { id = "new"; revision_id = "revision" }), next w);
    commit_revision = λ share_id link_id revision_id req w. (ok tt, next w);
    request_block_upload =
        λ req w. (ok (map (λ b. record { bare_url = "block"; token = "token" }) req.block_list), w);
    get_block = λ url token w. (ok (stored url), w);
    read_all = λ reader w. (ok reader, w);
    upload_block = λ cancelled url token bytes w. (ok tt, take_block url token bytes w);
    schedule = λ n w. last_first n;
    revision_verification_by_volume =
        some (λ volume_id link_id revision_id w. (ok ("code", "packet"), w));
    revision_verification = none;
    has_volume_id = true;
    has_verifier = true;
    node_hash_key = λ kr w. (ok "hash key", w);
    create_folder = λ share_id req w. (ok "folder", next w);
    move_link_by_volume = none;
    move_link = none;
    has_name_signature_email = true;
    sleep = wait;
    mime_type_of = λ name. "text/plain";
  }

  abbrev pub drive_on : Drive api_on
  drive_on = record {
    main_share = record {
      share_id = "share";
      volume_id = "volume";
      link_id = "root";
      address_id = "address";
      creator = "me";
    };
    root_link = link_at "root";
    main_share_kr = 10;
    default_addr_kr = some 5;
    replace_existing_draft = false;
    data_folder_name = "data";
    addr_krs = ("address", 5) ∷ [];
    addr_data = ("me", record { id = "address"; email = "me" }) ∷ [];
    signature_address = "me";
  }

abbrev pub api : Api
api =
    api_on ℕ (λ w. w + 1) (λ w. w) (λ seconds w. w + seconds) (λ url token bytes w. w + 1)
      (λ bytes. bytes)

abbrev pub drive : Drive api
drive =
    drive_on ℕ (λ w. w + 1) (λ w. w) (λ seconds w. w + seconds) (λ url token bytes w. w + 1)
      (λ bytes. bytes)

abbrev pub start : Bool → St api
start caching = record { cache = new_cache caching; world = 100 }

pub serves : Serves api drive served
serves = record {
  reads = λ link_id w. refl;
  identity = λ link_id l same. ap (λ r. elim r [ ok found ↦ found.link_id | _ ↦ "" ]) (sym same);
}

pub unlocks :
    (link_id : String) (parent_kr : ℕ)
    → Unlocks api drive served (link_at link_id) parent_kr (parent_kr + 1)
unfolding get_signature_verification_keyring add_addresses add_keys_from_kr add_keys bind lookup
unlocks link_id parent_kr = (1, refl, refl)

root-Resolves : Resolves api drive served 0 (link_at "root") 11
root-Resolves = root refl (unlocks "root" 10)

docs-Resolves : Resolves api drive served 1 (link_at "docs") 12
docs-Resolves = below (λ same. cc same) refl root-Resolves (unlocks "docs" 11)

start-Coherent : Coherent api drive served (start true)
unfolding new_cache lookup
start-Coherent = record {
  caching = refl;
  consistent = new_cache-IsConsistent true;
  links = λ link_id e found. cc;
  rings = λ link_id e l kr found holds ringed. cc;
}

pub off : (start false).cache.enable_caching ≡ false
unfolding new_cache
off = refl

get_link_run_example :
    Runs api drive served (get_link api drive "docs") (link_at "docs") (start true)
get_link_run_example =
    get_link_run api drive served serves "docs" (link_at "docs") (start true) (λ same. cc same) refl
      start-Coherent

get_link_kr_cached_lem_example :
    Runs api drive served (get_link_kr api drive 4 (some (link_at "docs"))) 12 (start true)
get_link_kr_cached_lem_example =
    get_link_kr_cached_lem api drive served serves 4 1 (link_at "docs") 12 (start true) refl
      docs-Resolves (omega arith) start-Coherent

get_link_kr_uncached_lem_example :
    get_link_kr api drive 3 (some (link_at "docs")) (start false) ≡ (ok 12, start false)
get_link_kr_uncached_lem_example =
    get_link_kr_uncached_lem api drive served serves 3 1 (link_at "docs") 12 (start false) off
      docs-Resolves (omega arith)

caching_transparent_example :
    (get_link_kr api drive 4 (some (link_at "docs")) (start true)).0
    ≡ (get_link_kr api drive 4 (some (link_at "docs")) (start false)).0
caching_transparent_example =
    caching_transparent api drive served serves 4 1 (link_at "docs") 12 (start true) (start false)
      refl docs-Resolves (omega arith) start-Coherent off
