-- ===== src/Invariant/Writes.antt =====
-- file_upload.go, delete.go, and the new folders and moves of folder.go.
use proton_api_bridge.Common.{ℕ, String, Bool, true, false, Option, none, some, List, [], ◌∷◌}
use proton_api_bridge.Action.{
  cant_locate_revision, Act, Outcome, Error, ok, err, fatal, out_of_fuel, ⊤, pure, fail, modify,
}
use proton_api_bridge.Action.Keeps.{Keeps, Keeps-pure, Keeps-bind, Keeps-for_each}
use proton_api_bridge.Proton.{
  Link, RevisionMetadata, RevisionState, RevisionXAttrCommon, CreateFileReq, CreateFileRes, Bytes,
}
use proton_api_bridge.Api.{Api}
use proton_api_bridge.Drive.{Drive, St, remote}
use proton_api_bridge.Cache.{clear_cache}
use proton_api_bridge.Links.Invariant.{
  HasConsistentCache, Identifies, Keeps-remote, remove_link_id_from_cache-Keeps,
  clear_cache-IsConsistent,
}
use proton_api_bridge.Links.{remove_link_id_from_cache}
use proton_api_bridge.Upload.{
  on_error, recover_broken_conflict_state, delete_link, create_new_revision, recover_link,
  replace_draft, with_drafts, handle_revision_conflict, Creation, prepare_create_file, locate_draft,
  locate_existing, create_file_action, create_and_resolve, resolve_again, draft_of,
  create_file_upload_draft, FileInput, commit_new_revision, upload_to_draft, upload_file,
  upload_file_by_reader, FileSystem, upload_file_by_path,
}
use proton_api_bridge.Upload.Draft.{Draft}
use proton_api_bridge.Trash.{
  move_to_trash, move_file_to_trash_by_id, move_folder_to_trash_by_id, empty_root_folder,
  empty_trash,
}
use proton_api_bridge.Folder.{
  create_new_folder, create_new_folder_by_id, prepare_move, move_link, move_by_id,
}
use proton_api_bridge.Files.{get_revisions}
use proton_api_bridge.Invariant.Reads.{
  read_rules, get_revisions-Keeps, search_by_name_in_active_folder-Keeps,
}

module _ {api : Api} where
  Keeps-on_error :
      {A B : Type 0} (handler : Error → Act (St api) B) (rest : A → Act (St api) B)
      (m : Act (St api) A)
      → Keeps HasConsistentCache m
      → ((e : Error) → Keeps HasConsistentCache (handler e))
      → ((a : A) → Keeps HasConsistentCache (rest a))
      → Keeps HasConsistentCache (λ s. on_error handler rest (m s))
  Keeps-on_error handler rest m km kh kr = record {
    at = λ s h. let (r, s') = m s in end r s' (km.at s h);
  }
    where
      end :
          (r : Outcome _) (s' : St api)
          → HasConsistentCache s'
          → HasConsistentCache (on_error handler rest (r, s')).1
      end (ok a) s' h = (kr a).at s' h
      end (err e) s' h = (kh e).at s' h
      end fatal s' h = h
      end out_of_fuel s' h = h

  clear-Keeps :
      Keeps HasConsistentCache (modify (λ (s : St api). record s { cache = clear_cache s.cache }))
  clear-Keeps = record { at = λ s h. clear_cache-IsConsistent s.cache h }

ruleset write_rules = (read_rules, clear-Keeps)

module _ (api : Api) (drive : Drive api) (identifies : Identifies api drive) where
  abbrev Keep : {A : Type 0} → Act (St api) A → Type 0
  Keep = Keeps HasConsistentCache

  pub move_to_trash-Keeps :
      (parent_id : String) (ids : List String) → Keep (move_to_trash api drive parent_id ids)
  unfolding move_to_trash
  move_to_trash-Keeps parent_id ids =
      Keeps-bind (remote (api.trash_children drive.main_share.share_id parent_id ids)) _
        (Keeps-remote _)
        (λ _.
          Keeps-for_each (λ link_id. remove_link_id_from_cache link_id true) ids
            (λ link_id. remove_link_id_from_cache-Keeps link_id true))

  pub move_file_to_trash_by_id-Keeps :
      (link_id : String) → Keep (move_file_to_trash_by_id api drive link_id)
  unfolding move_file_to_trash_by_id
  move_file_to_trash_by_id-Keeps link_id =
      search (write_rules, move_to_trash-Keeps) depth 14 fits 4000

  pub move_folder_to_trash_by_id-Keeps :
      (link_id : String) (only_on_empty : Bool)
      → Keep (move_folder_to_trash_by_id api drive link_id only_on_empty)
  unfolding move_folder_to_trash_by_id
  move_folder_to_trash_by_id-Keeps link_id only_on_empty =
      search (write_rules, move_to_trash-Keeps) depth 14 fits 4000

  pub empty_root_folder-Keeps : Keep (empty_root_folder api drive)
  unfolding empty_root_folder
  empty_root_folder-Keeps = search write_rules depth 14 fits 4000

  pub empty_trash-Keeps : Keep (empty_trash api drive)
  unfolding empty_trash
  empty_trash-Keeps = search write_rules

  pub create_new_folder-Keeps :
      (fuel : ℕ) (parent : Link) (name : String)
      → Keep (create_new_folder api drive fuel parent name)
  unfolding create_new_folder
  create_new_folder-Keeps fuel parent name = search write_rules depth 20 fits 8000

  pub create_new_folder_by_id-Keeps :
      (fuel : ℕ) (parent_id name : String)
      → Keep (create_new_folder_by_id api drive fuel parent_id name)
  unfolding create_new_folder_by_id
  create_new_folder_by_id-Keeps fuel parent_id name = search (write_rules, create_new_folder-Keeps)

  pub prepare_move-Keeps :
      (fuel : ℕ) (link parent : Link) (name : String)
      → Keep (prepare_move api drive fuel link parent name)
  unfolding prepare_move
  prepare_move-Keeps fuel link parent name = search write_rules depth 20 fits 8000

  sleep-Keeps : Keep {A = ⊤} (modify (λ s. record s { world = api.sleep 5 s.world }))
  sleep-Keeps = record { at = λ s h. h }

  pub move_link-Keeps :
      (fuel : ℕ) (link parent : Link) (name : String)
      → Keep (move_link api drive fuel link parent name)
  unfolding move_link
  move_link-Keeps fuel link parent name =
      search (write_rules, prepare_move-Keeps, sleep-Keeps) depth 14 fits 4000

  pub move_by_id-Keeps :
      (fuel : ℕ) (link_id parent_id name : String)
      → Keep (move_by_id api drive fuel link_id parent_id name)
  unfolding move_by_id
  move_by_id-Keeps fuel link_id parent_id name =
      search (write_rules, move_link-Keeps) depth 14 fits 4000

  delete_link-Keeps : (link : Link) → Keep (delete_link api drive link)
  unfolding delete_link
  delete_link-Keeps link = search write_rules

  create_new_revision-Keeps : (link : Link) → Keep (create_new_revision api drive link)
  unfolding create_new_revision
  create_new_revision-Keeps link = search write_rules

  recover_link-Keeps : (link : Link) (e : Error) → Keep (recover_link api drive link e)
  unfolding recover_link recover_broken_conflict_state
  recover_link-Keeps link e = search write_rules depth 14 fits 4000

  with_drafts-Keeps :
      (link : Link) (drafts : List RevisionMetadata) → Keep (with_drafts api drive link drafts)
  unfolding with_drafts replace_draft
  with_drafts-Keeps link [] = create_new_revision-Keeps link
  with_drafts-Keeps link (d ∷ more) = search write_rules depth 14 fits 4000

  handle_revision_conflict-Keeps :
      (link : Option Link) (created : Option CreateFileRes)
      → Keep (handle_revision_conflict api drive link created)
  unfolding handle_revision_conflict
  handle_revision_conflict-Keeps (some link) created =
      Keeps-on_error (recover_link api drive link) (with_drafts api drive link)
        (get_revisions api drive link RevisionState.draft)
        (get_revisions-Keeps api drive identifies link RevisionState.draft)
        (recover_link-Keeps link) (with_drafts-Keeps link)
  handle_revision_conflict-Keeps none (some created) = record { at = λ s h. h }
  handle_revision_conflict-Keeps none none = record { at = λ s h. h }

  located_end :
      (found : Option Link)
      → Keep {A = Creation}
          (elim found [ some link ↦ pure (none, some link) | none ↦ fail cant_locate_revision ])
  located_end (some link) = search write_rules
  located_end none = search write_rules

  locate_draft-Keeps :
      (fuel : ℕ) (parent : Link) (name : String) (found : Option Link)
      → Keep (locate_draft api drive fuel parent name found)
  unfolding locate_draft
  locate_draft-Keeps fuel parent name (some link) = search write_rules
  locate_draft-Keeps fuel parent name none =
      search (write_rules, search_by_name_in_active_folder-Keeps, located_end)

  locate_existing-Keeps :
      (fuel : ℕ) (parent : Link) (name : String) (e : Error)
      → Keep (locate_existing api drive fuel parent name e)
  unfolding locate_existing
  locate_existing-Keeps fuel parent name e =
      search (write_rules, search_by_name_in_active_folder-Keeps, locate_draft-Keeps)

  create_file_action-Keeps :
      (fuel : ℕ) (parent : Link) (name : String) (req : CreateFileReq)
      → Keep (create_file_action api drive fuel parent name req)
  unfolding create_file_action
  create_file_action-Keeps fuel parent name req =
      Keeps-on_error (locate_existing api drive fuel parent name)
        (λ created. pure (some created, none))
        (remote (api.create_file drive.main_share.share_id req)) (Keeps-remote _)
        (locate_existing-Keeps fuel parent name) (λ created. Keeps-pure _)

  create_and_resolve-Keeps :
      (fuel : ℕ) (parent : Link) (name : String) (req : CreateFileReq)
      → Keep (create_and_resolve api drive fuel parent name req)
  unfolding create_and_resolve
  create_and_resolve-Keeps fuel parent name req =
      search (write_rules, create_file_action-Keeps, handle_revision_conflict-Keeps)

  resolve_again-Keeps :
      (fuel : ℕ) (parent : Link) (name : String) (req : CreateFileReq)
      (first : Creation × String × Bool)
      → Keep (resolve_again api drive fuel parent name req first)
  unfolding resolve_again
  resolve_again-Keeps fuel parent name req (creation, revision_id, false) = search write_rules
  resolve_again-Keeps fuel parent name req (creation, revision_id, true) =
      search (write_rules, create_and_resolve-Keeps)

  draft_of-Keeps :
      (fuel : ℕ) (session_key : api.SessionKey) (kr : api.KeyRing) (revision_id : String)
      (creation : Creation)
      → Keep (draft_of api drive fuel session_key kr revision_id creation)
  unfolding draft_of
  draft_of-Keeps fuel session_key kr revision_id (created, some link) =
      search write_rules depth 14 fits 4000
  draft_of-Keeps fuel session_key kr revision_id (created, none) = search write_rules

  prepare_create_file-Keeps :
      (fuel : ℕ) (parent : Link) (name mime : String)
      → Keep (prepare_create_file api drive fuel parent name mime)
  unfolding prepare_create_file
  prepare_create_file-Keeps fuel parent name mime = search write_rules depth 20 fits 8000

  create_file_upload_draft-Keeps :
      (fuel : ℕ) (parent : Link) (name mime : String)
      → Keep (create_file_upload_draft api drive fuel parent name mime)
  unfolding create_file_upload_draft
  create_file_upload_draft-Keeps fuel parent name mime =
      search
        (
          write_rules, prepare_create_file-Keeps, create_and_resolve-Keeps, resolve_again-Keeps,
          draft_of-Keeps,
        )
        depth 14 fits 4000

  commit_new_revision-Keeps :
      (fuel : ℕ) (kr : api.KeyRing) (x : RevisionXAttrCommon) (m : Bytes)
      (link_id revision_id : String)
      → Keep (commit_new_revision api drive fuel kr x m link_id revision_id)
  unfolding commit_new_revision
  commit_new_revision-Keeps fuel kr x m link_id revision_id = search write_rules depth 14 fits 4000

  upload_to_draft-Keeps :
      (fuel : ℕ) (draft : Draft api) (time : api.Time) (file : FileInput) (test_param : ℕ)
      → Keep (upload_to_draft api drive fuel draft time file test_param)
  unfolding upload_to_draft
  upload_to_draft-Keeps fuel draft time file test_param =
      search (write_rules, commit_new_revision-Keeps) depth 14 fits 4000

  pub upload_file-Keeps :
      (fuel : ℕ) (parent : Link) (name : String) (time : api.Time) (file : FileInput)
      (test_param : ℕ)
      → Keep (upload_file api drive fuel parent name time file test_param)
  unfolding upload_file
  upload_file-Keeps fuel parent name time file test_param =
      search (write_rules, create_file_upload_draft-Keeps, upload_to_draft-Keeps) depth 14 fits 4000

  pub upload_file_by_reader-Keeps :
      (fuel : ℕ) (parent_id name : String) (time : api.Time) (file : FileInput) (test_param : ℕ)
      → Keep (upload_file_by_reader api drive fuel parent_id name time file test_param)
  unfolding upload_file_by_reader
  upload_file_by_reader-Keeps fuel parent_id name time file test_param =
      search (write_rules, upload_file-Keeps)

  pub upload_file_by_path-Keeps :
      (fs : FileSystem api) (fuel : ℕ) (parent : Link) (name path : String) (test_param : ℕ)
      → Keep (upload_file_by_path api drive fs fuel parent name path test_param)
  unfolding upload_file_by_path
  upload_file_by_path-Keeps fs fuel parent name path test_param =
      search (write_rules, upload_file-Keeps)
