-- ===== src/Tests/Walks.antt =====
-- A history of calls, and a walk over a small tree.
use proton_api_bridge.Common.{true, false, some, [], ◌∷◌, ◌≡◌, ap, sym}
use proton_api_bridge.Int.{pos}
use proton_api_bridge.Action.{ok}
use proton_api_bridge.Drive.{St}
use proton_api_bridge.Cache.{remove}
use proton_api_bridge.Links.Invariant.{Identifies}
use proton_api_bridge.Invariant.Histories.{
  link_of, list_folder, perform, Reached, opened, called, Reached-remove,
}
use proton_api_bridge.Recursive.{Disk, list_directories_recursively}
use proton_api_bridge.Recursive.Paths.{picked, entries}
use proton_api_bridge.Recursive.Walks.{list_directories_recursively_lem}
use proton_api_bridge.Tests.Server.{api, drive, link_at, start}
use proton_api_bridge.Tests.Downloads.{four}
use proton_api_bridge.Tests.Changes.{tree, tree_is_served, at_work}

pub identifies : Identifies api drive
identifies = record {
  same = λ share_id link_id w w' l got.
      sym (ap (λ r. elim (r.0) [ ok found ↦ found.link_id | _ ↦ link_id ]) got);
}

-- The folder is listed, a link is read, and the cache holds both.
abbrev later : St api
later =
    perform api drive 5 (link_of "notes") (perform api drive 5 (list_folder "docs") (start true))

later-Reached : Reached api drive 5 later
later-Reached = called (called (opened true 100) (list_folder "docs")) (link_of "notes")

Reached-remove_example : (remove "docs" true later.cache).0 ≡ ok tt
Reached-remove_example = Reached-remove api drive 5 identifies later "docs" true later-Reached

abbrev disk : Disk api
disk = record {
  write_file = λ path bytes w. (ok tt, w);
  make_dir = λ path w. (ok tt, w);
  slice_size = four;
}

list_directories_recursively_lem_example :
    list_directories_recursively api drive disk 9 3 10
      (link_at "root")
      false
      (pos 1)
      0
      true
      ""
      (record { st = at_work; paths = some [] })
    ≡ (ok tt, record { st = at_work; paths = some ("/notes" ∷ "/docs" ∷ []) })
unfolding picked entries
list_directories_recursively_lem_example =
    list_directories_recursively_lem api drive disk 9 (some 1) true 3 10 tree at_work []
      tree_is_served
