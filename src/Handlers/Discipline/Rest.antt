-- ===== src/Handlers/Discipline/Rest.antt =====
-- The use of locks and files by the deletion, the change of mode and the listing, and by the dispatcher.
use nerv_fs.Base.{ℕ, ◌≡◌, refl, sym, ap, Bool, true, false, none, some, Bytes}
use nerv_fs.Os.{History, Env, Timespec}
use nerv_fs.Handlers.Usage.{exclusive, writable}
use nerv_fs.Handlers.Request.{Checked, good, bad, broken, Named, Chmod}
use nerv_fs.Handlers.Change.{change_done, delete_file, chmod_file}
use nerv_fs.Handlers.Sound.{Sound, IsPathOf}
use nerv_fs.Handlers.Discipline.{Free, Writing, error, send_ok-Holds}

module _ (root : Bytes) (env : Env) (client : ℕ) where
  change_done-Free :
      (name : Bytes) (start : Timespec) (done : Bool) (h : History)
      → Writing root env client name none h
      → Free root env client (change_done env client name start (done, h))
  unfolding change_done
  change_done-Free name start true h s =
      send_ok-Holds root none none env client _ _
        (record { proper = (s.lock_eq, s.proper); lock_eq = refl; file_eq = s.file_eq })
  change_done-Free name start false h s =
      error root env client _ _ _
        (record { proper = (s.lock_eq, s.proper); lock_eq = refl; file_eq = s.file_eq })

  -- The lock lets its holder change the file of its name.
  lock_allows :
      (path name : Bytes)
      → IsPathOf root path name
      → writable root (some (exclusive name)) ≡ some path
  lock_allows path name ok = ap some (sym ok.path_eq)

  pub delete_file-Free :
      (r : Checked Named) (h : History)
      → Sound (λ q. IsPathOf root q.path q.name) r
      → Free root env client h
      → Free root env client (delete_file env client r h)
  unfolding delete_file
  delete_file-Free (bad err_code msg) h ok s = error root env client err_code msg h s
  delete_file-Free broken h ok s = absurd ok
  delete_file-Free (good q) h ok s = change_done-Free q.name _ _ _ (record {
    proper = (lock_allows q.path q.name ok, (s.lock_eq, s.proper));
    lock_eq = refl;
    file_eq = s.file_eq;
  })

  pub chmod_file-Free :
      (r : Checked Chmod) (h : History)
      → Sound (λ q. IsPathOf root q.path q.name) r
      → Free root env client h
      → Free root env client (chmod_file env client r h)
  unfolding chmod_file
  chmod_file-Free (bad err_code msg) h ok s = error root env client err_code msg h s
  chmod_file-Free broken h ok s = absurd ok
  chmod_file-Free (good q) h ok s = change_done-Free q.name _ _ _ (record {
    proper = (lock_allows q.path q.name ok, (s.lock_eq, s.proper));
    lock_eq = refl;
    file_eq = s.file_eq;
  })
