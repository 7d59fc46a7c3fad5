-- ===== src/Upload/Drafts.antt =====
-- file_upload.go, `handleRevisionConflict`: drafts that exist, and revisions that cannot be read.
use proton_api_bridge.Common.{
  ℕ, String, ◌++◌, ◌≢◌, ◌⊎◌, All, refl, eqb, arith, and_cases, true, false, Option, some, List, [],
  ◌∷◌, ◌&&◌, ◌≡◌, ap, ◌∙◌, inl, inr, Bool-cases, if_else,
}
use proton_api_bridge.Action.{
  Act, api_error, Outcome, ok, err, Error, pure, draft_exists, >>=_step, >>=_stop, then_step,
  else_step,
}
use proton_api_bridge.Proton.{
  Link, LinkState, RevisionState, RevisionMetadata, CreateFileRes, same_state, same_revision_state,
  LinkState-same, RevisionState-same,
}
use proton_api_bridge.Api.{Api}
use proton_api_bridge.Drive.{Drive, St, remote}
use proton_api_bridge.Files.{with_state, get_revisions}
use proton_api_bridge.Upload.Tokens.{is_not_found, recover_broken_conflict_state}
use proton_api_bridge.Upload.Conflict.{
  on_error, delete_link, create_new_revision, recover_link, replace_draft, with_drafts,
  handle_revision_conflict,
}

eq_of_eqb : (n m : ℕ) → eqb n m ≡ true → n ≡ m
eq_of_eqb n m e = ground (arith, e)

-- The error that the test accepts.
not_found : (e : Error) → is_not_found e ≡ true → e ≡ api_error 2501
not_found (api_error code) on = ap api_error (eq_of_eqb code 2501 on)
not_found _ on = absurd (cc on)

module _ (api : Api) (drive : Drive api) where
  -- The deletion of the link itself among its parent's children, which leads to this world.
  abbrev pub Deletes : Link → api.World → api.World → Type 0
  Deletes link w w' =
      api.delete_children drive.main_share.share_id link.parent_link_id (link.link_id ∷ []) w
      ≡ (ok tt, w')

  remote_run :
      {A : Type 0} (call : Act api.World A) (s : St api) {a : Outcome A} {w : api.World}
      → call s.world ≡ (a, w)
      → remote call s ≡ (a, record s { world = w })
  remote_run call s ran = ap (λ r. (r.0, record s { world = r.1 })) ran

  delete_link_run :
      (link : Link) (s : St api) (w : api.World)
      → Deletes link s.world w
      → delete_link api drive link s ≡ (ok tt, record s { world = w })
  unfolding delete_link
  delete_link_run link s w deletes =
      remote_run
        (api.delete_children drive.main_share.share_id link.parent_link_id (link.link_id ∷ [])) s
        deletes

  -- The error is the API's for a missing file, and the link is a draft.
  abbrev pub IsBroken : Error → Link → Type 0
  IsBroken e link = (e ≡ api_error 2501) × (link.state ≡ LinkState.draft)

  IsBroken-of_test :
      (e : Error) (link : Link)
      → (is_not_found e && same_state link.state LinkState.draft) ≡ true
      → IsBroken e link
  IsBroken-of_test e link on =
      let (missing, draft) =
        and_cases (is_not_found e) (same_state link.state LinkState.draft) on in
      (not_found e missing, LinkState-same link.state LinkState.draft draft)

  IsBroken-test :
      (e : Error) (link : Link)
      → IsBroken e link
      → (is_not_found e && same_state link.state LinkState.draft) ≡ true
  IsBroken-test e link (missing, draft) = rw (missing, draft) refl

  recover_link_run :
      (link : Link) (e : Error) (s : St api) (w : api.World)
      → Deletes link s.world w
      → (IsBroken e link
          × (recover_link api drive link e s ≡ (ok ("", true), record s { world = w })))
        ⊎ (¬ (IsBroken e link) × (recover_link api drive link e s ≡ (err e, s)))
  unfolding recover_link recover_broken_conflict_state
  recover_link_run link e s w deletes =
      elim (Bool-cases (is_not_found e && same_state link.state LinkState.draft)) [
        | inl broken ↦ inl (
          IsBroken-of_test e link broken,
          >>=_step (recover_broken_conflict_state e link.state (delete_link api drive link)) _ s (
              then_step _ _ s broken
              ∙ >>=_step (delete_link api drive link) (λ _. pure true) s
                  (delete_link_run link s w deletes)),
        )
        | inr other ↦ inr (
          (λ broken. cc (other, IsBroken-test e link broken)),
          >>=_stop (recover_broken_conflict_state e link.state (delete_link api drive link)) _ s
              (else_step _ _ s other),
        )
      ]

  -- When the listing of the revisions of the link that an upload meets ends with an error, and
  -- the call that deletes this link among its parent's children would succeed: if the error is
  -- the API's 2501 and the link is in the draft state, the link is deleted and the file is to be
  -- created again; in every other case the error is returned and nothing is deleted.
  pub unreadable_revisions :
      (link : Link) (created : Option CreateFileRes) (e : Error) (s : St api) (w1 w2 : api.World)
      → api.list_revisions drive.main_share.share_id link.link_id s.world ≡ (err e, w1)
      → Deletes link w1 w2
      → (IsBroken e link
          × (handle_revision_conflict api drive (some link) created s
              ≡ (ok ("", true), record s { world = w2 })))
        ⊎ (¬ (IsBroken e link)
            × (handle_revision_conflict api drive (some link) created s
                ≡ (err e, record s { world = w1 })))
  unfolding handle_revision_conflict get_revisions
  unreadable_revisions link created e s w1 w2 unread deletes =
      let ran : handle_revision_conflict api drive (some link) created s
          ≡ recover_link api drive link e (record s { world = w1 }) =
        ap (λ r. on_error (recover_link api drive link) (with_drafts api drive link) r)
          (>>=_stop (remote (api.list_revisions drive.main_share.share_id link.link_id)) _ s
            (remote_run (api.list_revisions drive.main_share.share_id link.link_id) s unread)) in
      elim (recover_link_run link e (record s { world = w1 }) w2 deletes) [
        | inl (broken, end) ↦ inl (broken, ran ∙ end)
        | inr (other, end) ↦ inr (other, ran ∙ end)
      ]

  replace_draft_run :
      (link : Link) (draft : RevisionMetadata) (revision_id : String) (s : St api)
      (w2 w3 w4 : api.World)
      → Deletes link s.world w2
      → api.delete_revision drive.main_share.share_id link.link_id draft.id s.world ≡ (ok tt, w3)
      → api.create_revision drive.main_share.share_id link.link_id w3 ≡ (ok revision_id, w4)
      → ((link.state ≡ LinkState.draft)
          × (replace_draft api drive link draft s ≡ (ok ("", true), record s { world = w2 })))
        ⊎ ((link.state ≢ LinkState.draft)
            × (replace_draft api drive link draft s
                ≡ (ok (revision_id, false), record s { world = w4 })))
  unfolding replace_draft create_new_revision
  replace_draft_run link draft revision_id s w2 w3 w4 deletes removed created =
      elim (Bool-cases (same_state link.state LinkState.draft)) [
        | inl on ↦ inl (
          LinkState-same link.state LinkState.draft on,
          then_step _ _ s on
              ∙ >>=_step (delete_link api drive link) (λ _. pure ("", true)) s
                  (delete_link_run link s w2 deletes),
        )
        | inr off ↦ inr (
          (λ same. cc (off, ap (λ t. same_state t LinkState.draft) same)),
          else_step _ _ s off
              ∙ >>=_step
                  (remote (api.delete_revision drive.main_share.share_id link.link_id draft.id)) _ s
                  (remote_run (api.delete_revision drive.main_share.share_id link.link_id draft.id)
                    s removed)
              ∙ >>=_step (remote (api.create_revision drive.main_share.share_id link.link_id)) _
                  (record s { world = w3 })
                  (remote_run (api.create_revision drive.main_share.share_id link.link_id)
                    (record s { world = w3 }) created),
        )
      ]

  -- The first draft of the list is found.
  with_state-append :
      (before : List RevisionMetadata) (draft : RevisionMetadata) (after : List RevisionMetadata)
      → All (λ r. r.state ≢ RevisionState.draft) before
      → draft.state ≡ RevisionState.draft
      → with_state RevisionState.draft (before ++ draft ∷ after)
        ≡ draft ∷ with_state RevisionState.draft after
  unfolding with_state
  with_state-append [] draft after none_before is = rw is refl
  with_state-append (r ∷ before) draft after (here, rest) is =
      elim (Bool-cases (same_revision_state r.state RevisionState.draft)) [
        | inl on ↦ absurd (here (RevisionState-same r.state RevisionState.draft on))
        | inr off ↦ if_else _ _ off ∙ with_state-append before draft after rest is
      ]

  drafts_run :
      (link : Link) (s : St api) (w1 : api.World) (before : List RevisionMetadata)
      (draft : RevisionMetadata) (after : List RevisionMetadata)
      → api.list_revisions drive.main_share.share_id link.link_id s.world
        ≡ (ok (before ++ draft ∷ after), w1)
      → All (λ r. r.state ≢ RevisionState.draft) before
      → draft.state ≡ RevisionState.draft
      → get_revisions api drive link RevisionState.draft s
        ≡ (ok (draft ∷ with_state RevisionState.draft after), record s { world = w1 })
  unfolding get_revisions
  drafts_run link s w1 before draft after listed none_before is =
      >>=_step (remote (api.list_revisions drive.main_share.share_id link.link_id)) _ s
        (remote_run (api.list_revisions drive.main_share.share_id link.link_id) s listed)
      ∙ ap (λ (rs : List RevisionMetadata). (ok rs, record s { world = w1 }))
          (with_state-append before draft after none_before is)

  -- When the revisions of the link that an upload meets are listed, with a first draft among
  -- them, and the calls on the server would succeed that delete this link among its parent's
  -- children, delete this draft, and create a revision: without `ReplaceExistingDraft` the
  -- upload ends with ErrDraftExists and only the listing was done; with it, a link in the draft
  -- state is deleted and the file is to be created again; and with it, for a link in any other
  -- state, the draft is deleted and the new revision is returned.
  pub existing_draft :
      (link : Link) (file : Option CreateFileRes) (before : List RevisionMetadata)
      (draft : RevisionMetadata) (after : List RevisionMetadata) (revision_id : String) (s : St api)
      (w1 w2 w3 w4 : api.World)
      → api.list_revisions drive.main_share.share_id link.link_id s.world
        ≡ (ok (before ++ draft ∷ after), w1)
      → All (λ r. r.state ≢ RevisionState.draft) before
      → draft.state ≡ RevisionState.draft
      → Deletes link w1 w2
      → api.delete_revision drive.main_share.share_id link.link_id draft.id w1 ≡ (ok tt, w3)
      → api.create_revision drive.main_share.share_id link.link_id w3 ≡ (ok revision_id, w4)
      → ((drive.replace_existing_draft ≡ false)
          × (handle_revision_conflict api drive (some link) file s
              ≡ (err draft_exists, record s { world = w1 })))
        ⊎ (((drive.replace_existing_draft ≡ true)
              × (link.state ≡ LinkState.draft)
              × (handle_revision_conflict api drive (some link) file s
                  ≡ (ok ("", true), record s { world = w2 })))
            ⊎ ((drive.replace_existing_draft ≡ true)
                × (link.state ≢ LinkState.draft)
                × (handle_revision_conflict api drive (some link) file s
                    ≡ (ok (revision_id, false), record s { world = w4 }))))
  unfolding handle_revision_conflict with_drafts
  existing_draft link file before draft after revision_id s w1 w2 w3 w4 listed none_before is
        deletes removed created =
      let s1 : St api = record s { world = w1 } in
      let ran =
        ap (λ r. on_error (recover_link api drive link) (with_drafts api drive link) r)
          (drafts_run link s w1 before draft after listed none_before is) in
      elim (Bool-cases drive.replace_existing_draft) [
        | inr off ↦ inl (off, ran ∙ else_step _ _ s1 off)
        | inl on ↦
            elim (replace_draft_run link draft revision_id s1 w2 w3 w4 deletes removed created) [
              | inl (only, end) ↦ inr (inl (on, only, ran ∙ then_step _ _ s1 on ∙ end))
              | inr (other, end) ↦ inr (inr (on, other, ran ∙ then_step _ _ s1 on ∙ end))
            ]
      ]
