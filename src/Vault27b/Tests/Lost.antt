-- ===== src/Vault27b/Tests/Lost.antt =====
-- Four interleavings of vaultdrop/qwen-3-8-27b-v2 in which an artifact is left without its bytes.
use qwen_3_8_evals.Prelude.{
  ℕ, ◌+◌, String, ◌≡◌, refl, true, none, some, [], ◌∷◌, find, lookup, count, any, select, update,
  put, delete, without,
}
use qwen_3_8_evals.Prelude.Int.{pos}
use qwen_3_8_evals.Json.{str, num}
use qwen_3_8_evals.Text.{codes, hex_value}
use qwen_3_8_evals.Effect.{◌>>=◌}
use qwen_3_8_evals.Vault27b.Types.{active, Artifact, Store, artifact_at}
use qwen_3_8_evals.Vault27b.Threads.{Request, finalize, gc, accept, advance, row_state}
use qwen_3_8_evals.Vault27b.System.{System, Call, store, remove, perform}
use qwen_3_8_evals.Vault27b.Recover.{recover}
use qwen_3_8_evals.Vault27b.Tests.{kept, published, go, ask, done, create_at, chunk_at, finalize_at}

abbrev other : Artifact
other = record kept { artifact_id = 12; upload_id = 2 }

-- The artifact of the first upload is deleted, and thread 1 collects: it has its candidate.
abbrev candidate : System
candidate = go 1 (ask 1 gc (done (remove "t" 11) published))

-- Thread `i` finalizes another upload of the same bytes up to its second statement.
abbrev again : ℕ → ℕ → System → System
again i upload_id s = go i (
    go i (ask i (finalize_at upload_id) (done (chunk_at upload_id) (done (create_at upload_id) s))))

-- A finalization has read the tombstone and placed its bytes; the collection takes these for the old
-- ones, still reads the tombstone and unlinks them; then the finalization commits.
abbrev collected : System
collected = go 2 (go 1 (go 1 (go 2 (again 2 2 (go 1 candidate)))))

collected-loses :
    (find (artifact_at 12) collected.store.artifacts ≡ some other)
    × (row_state 6 collected.store ≡ some active)
    × (lookup 6 collected.store.blob_files ≡ none)
unfolding perform advance accept find ◌>>=◌ any hex_value count lookup select update delete put
    without recover
collected-loses = (refl, refl, refl)

-- The same, but the finalization commits while the bytes are in quarantine, and the program is killed
-- before the collection restores them: recovery unlinks the quarantined file.
abbrev crashed : Store
crashed = recover (go 2 (go 1 (go 2 (again 2 2 (go 1 candidate))))).store

crashed-loses :
    (find (artifact_at 12) crashed.artifacts ≡ some other)
    × (row_state 6 crashed ≡ some active)
    × (lookup 6 crashed.blob_files ≡ none)
unfolding perform advance accept find ◌>>=◌ any hex_value count lookup select update delete put
    without recover
crashed-loses = (refl, refl, refl)

-- A finalization makes the candidate active again, and its artifact is deleted. The tombstone then changes
-- no row, which `gc_pass` does not see: it quarantines the file. Another collection marks the row, a third
-- finalization reads the mark, the bytes are unlinked, and the finalization commits.
abbrev revived : System
revived = go 1 (go 1 (done (remove "t" 12) (go 2 (again 2 2 candidate))))

abbrev marked_again : System
marked_again = go 4 (go 1 (again 4 3 (ask 3 gc revived)))

marked_again-loses :
    (find (artifact_at 13) marked_again.store.artifacts
      ≡ some (record kept { artifact_id = 13; upload_id = 3 }))
    × (row_state 6 marked_again.store ≡ some active)
    × (lookup 6 marked_again.store.blob_files ≡ none)
unfolding perform advance accept find ◌>>=◌ any hex_value count lookup select update delete put
    without recover
marked_again-loses = (refl, refl, refl)

-- Other bytes of the same size, whose row comes first.
abbrev hex_three : String
hex_three = "0000000000000000000000000000000000000000000000000000000000000003"

abbrev small_at : ℕ → Call
small_at upload_id = store "t" upload_id 0 (1 ∷ 1 ∷ 1 ∷ []) (some (codes hex_three)) 3

abbrev finalize_small : ℕ → Request
finalize_small upload_id = finalize "t" upload_id (str hex_three) (num (pos 3)) (upload_id + 10) 2

abbrev second : System
second = go 3 (
    go 3
      (go 3 (go 3 (ask 3 (finalize_small 2) (done (small_at 2) (done (create_at 2) published))))))

-- Both artifacts are deleted, and thread 1 has made a tombstone of the first of two candidates.
abbrev two_candidates : System
two_candidates = go 1 (go 1 (ask 1 gc (done (remove "t" 12) (done (remove "t" 11) second))))

-- A finalization reads the tombstone and places its bytes, which the collection quarantines; it commits
-- before the collection reads the state again. The SELECT is still open, so that the collection reads the
-- tombstone and unlinks the bytes, though the row is active.
abbrev stale : System
stale = go 1 (
    go 2 (
      go 1 (
        go 2 (
          go 2 (
            go 2 (
              ask 2 (finalize_small 3) (done (small_at 3) (done (create_at 3) two_candidates))))))))

stale-loses :
    (any (artifact_at 13) stale.store.artifacts ≡ true)
    × (row_state 3 stale.store ≡ some active)
    × (lookup 3 stale.store.blob_files ≡ none)
unfolding perform advance accept find ◌>>=◌ any hex_value count lookup select update delete put
    without recover
stale-loses = (refl, refl, refl)
