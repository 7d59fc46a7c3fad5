-- ===== src/Upload/Conflict.antt =====
-- file_upload.go, `handleRevisionConflict`: which revision a file that may exist is uploaded to.
use proton_api_bridge.Common.{
  String, Bool, true, false, Option, none, some, List, [], ◌∷◌, if◌then◌else◌,
}
use proton_api_bridge.Action.{
  Act, Outcome, ⊤, ok, err, fatal, out_of_fuel, Error, pure, fail, ◌>>=◌, ◌>>◌, draft_exists,
  internal_error_on_file_upload,
}
use proton_api_bridge.Proton.{
  Link, LinkState, RevisionState, RevisionMetadata, CreateFileRes, same_state,
}
use proton_api_bridge.Api.{Api}
use proton_api_bridge.Drive.{Drive, St, remote}
use proton_api_bridge.Files.{get_revisions}
use proton_api_bridge.Upload.Tokens.{recover_broken_conflict_state}

-- A handler for the error of a call; what it gives is the result of both.
abbrev pub on_error :
    {S A B : Type 0} → (Error → Act S B) → (A → Act S B) → Outcome A × S → Outcome B × S
on_error handler rest (ok a, s) = rest a s
on_error handler rest (err e, s) = handler e s
on_error handler rest (fatal, s) = (fatal, s)
on_error handler rest (out_of_fuel, s) = (out_of_fuel, s)

module _ (api : Api) (drive : Drive api) where
  -- The deletion of the link itself, which skips the trash.
  unfoldable pub delete_link : Link → Act (St api) ⊤
  delete_link link =
      remote (api.delete_children drive.main_share.share_id link.parent_link_id (link.link_id ∷ []))

  -- The new revision, and that the file need not be created again.
  unfoldable pub create_new_revision : Link → Act (St api) (String × Bool)
  create_new_revision link = do
    revision_id ← remote (api.create_revision drive.main_share.share_id link.link_id)
    pure (revision_id, false)

  -- The case that the drafts of the link could not be read.
  unfoldable pub recover_link : Link → Error → Act (St api) (String × Bool)
  unfolding recover_broken_conflict_state delete_link
  recover_link link e = do
    again ← recover_broken_conflict_state e link.state (delete_link link)
    pure ("", again)

  -- The draft that exists is deleted, with its link if the link is but a draft.
  unfoldable pub replace_draft : Link → RevisionMetadata → Act (St api) (String × Bool)
  unfolding delete_link create_new_revision
  replace_draft link draft_revision =
      if same_state link.state LinkState.draft
      then (delete_link link >> pure ("", true))
      else (remote (api.delete_revision drive.main_share.share_id link.link_id draft_revision.id)
          >> create_new_revision link)

  -- What is done with the drafts of the link.
  unfoldable pub with_drafts : Link → List RevisionMetadata → Act (St api) (String × Bool)
  unfolding create_new_revision replace_draft
  with_drafts link [] = create_new_revision link
  with_drafts link (draft_revision ∷ more) =
      if drive.replace_existing_draft then replace_draft link draft_revision else fail draft_exists

  -- `handleRevisionConflict`: the revision, and whether the file must be created again.
  unfoldable pub handle_revision_conflict :
      Option Link → Option CreateFileRes → Act (St api) (String × Bool)
  unfolding get_revisions recover_link with_drafts
  handle_revision_conflict (some link) created s =
      on_error (recover_link link) (with_drafts link)
        (get_revisions api drive link RevisionState.draft s)
  handle_revision_conflict none (some created) s = (ok (created.revision_id, false), s)
  handle_revision_conflict none none s = (err internal_error_on_file_upload, s)
