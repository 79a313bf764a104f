-- ===== src/Vault27b/Bytes/Sweeps.antt =====
-- `gc_pass` of vaultdrop/qwen-3-8-27b-v2, against the other threads.
use qwen_3_8_evals.Prelude.{
  ℕ, ◌≡◌, ◌≢◌, inl, inr, refl, Bool, true, false, Option, none, some, List, [], ◌∷◌, arith, lookup,
  any, select, lookup-put, lookup-without, find-update, any-update, Bool-cases, All, All-map, ◌==◌,
}
use qwen_3_8_evals.Vault27b.Types.{BlobState, active, pending, deleted, Blob, Store, blob_at}
use qwen_3_8_evals.Vault27b.Transactions.{
  mark, marked, is_unreferenced, candidates, is_candidate, bury, buried, candidate_at, take_blob,
  place_blob,
}
use qwen_3_8_evals.Vault27b.Threads.{
  Worker, selecting, sweeping, quarantining, judging, restoring, answered, Tally, sweep, quarantine,
  judged, row_state, failed, scan_one, collect_one, free_one,
}
use qwen_3_8_evals.Vault27b.System.{quarantines}
use qwen_3_8_evals.Vault27b.Bytes.{has_row, usable, Listed, Frame, Listed-frame}
use qwen_3_8_evals.Vault27b.Bytes.Local.{Respects, Given, Serves-quiet, quiet, same-Frame}

abbrev hash : Blob → ℕ
hash b = b.content_hash

select-Listed :
    (s : Store) (p : Blob → Bool) (bs : List Blob) → Listed s bs → Listed s (select p bs)
unfolding select
select-Listed s p [] l = tt
select-Listed s p (b ∷ bs) l = ground (arith, l.0, select-Listed s p bs l.1)

any-cons :
    (h : ℕ) (b : Blob) (bs : List Blob)
    → any (blob_at h) bs ≡ true
    → any (blob_at h) (b ∷ bs) ≡ true
unfolding any
any-cons h b bs e = ground (arith, e)

own_rows : (bs : List Blob) → All (λ b. any (blob_at b.content_hash) bs ≡ true) bs
unfolding any
own_rows [] = tt
own_rows (b ∷ bs) = (ground arith, All-map bs (λ x e. any-cons x.content_hash b bs e) (own_rows bs))

module _ (sha256 : List ℕ → ℕ) (Av : ℕ → Type 0) (s : Store) (g : Given sha256 Av s) where
  pub mark-Respects :
      (w : Worker)
      → ((h : ℕ) → quarantines h w ≡ false)
      → Respects sha256 Av s w (selecting, mark s)
  unfolding mark
  mark-Respects w q = record {
    addressed = g.addressed;
    frame = record {
      rows = λ h e. ground (arith, e, any-update hash h is_unreferenced marked s.blobs (λ b. refl));
      files = λ h e p. p;
    };
    serves = λ h e.
        Serves-quiet sha256 Av s w (selecting, mark s) h (λ p. p) (q h)
          (g.available h
            (ground (arith, e, find-update hash h is_unreferenced marked s.blobs (λ b. refl))));
    tidy = tt;
  }

  pub select-Respects : (t : Tally) → Respects sha256 Av s selecting (sweeping t (candidates s), s)
  unfolding candidates quarantines
  select-Respects t =
      quiet sha256 Av s selecting (sweeping t (candidates s)) g (λ h. refl)
        (select-Listed s is_candidate s.blobs (own_rows s.blobs))

  bury-Frame : (digest : ℕ) → Frame s (bury digest s)
  unfolding bury
  bury-Frame digest = record {
    rows = λ h e.
        ground (arith, e, any-update hash h (candidate_at digest) buried s.blobs (λ b. refl));
    files = λ h e p. p;
  }

  pub sweep-Respects :
      (busy : Bool) (t : Tally) (left : List Blob)
      → Listed s left
      → Respects sha256 Av s (sweeping t left) (sweep busy t left s)
  unfolding sweep bury quarantines
  sweep-Respects busy t [] l = quiet sha256 Av s (sweeping t []) (answered _) g (λ h. refl) tt
  sweep-Respects true t (b ∷ rest) l =
      quiet sha256 Av s (sweeping t (b ∷ rest)) failed g (λ h. refl) tt
  sweep-Respects false t (b ∷ rest) l =
      let f = bury-Frame b.content_hash in
      record {
        addressed = g.addressed;
        frame = f;
        serves = λ h e.
            Serves-quiet sha256 Av s (sweeping t (b ∷ rest))
              (
                quarantining (scan_one t) b (row_state b.content_hash (bury b.content_hash s)) rest,
                bury b.content_hash s,
              )
              h (λ p. p) refl
              (g.available h (
                ground (
                  arith,
                  e,
                  find-update hash h (candidate_at b.content_hash) buried s.blobs (λ b. refl),
                )));
        tidy = (f.rows b.content_hash l.0, Listed-frame s _ rest f l.1);
      }

  pub quarantine-Respects :
      (o : Option (List ℕ)) (t : Tally) (b : Blob) (seen : Option BlobState) (rest : List Blob)
      → lookup b.content_hash s.blob_files ≡ o
      → has_row b.content_hash s ≡ true
      → Listed s rest
      → Respects sha256 Av s (quarantining t b seen rest) (quarantine o t b seen rest s)
  unfolding quarantine take_blob quarantines
  quarantine-Respects none t b seen rest e k l =
      quiet sha256 Av s (quarantining t b seen rest) (sweeping (collect_one t) rest) g (λ h. refl) l
  quarantine-Respects (some content) t b seen rest e k l = record {
    addressed =
        λ h c p. ground (arith, p, g.addressed h c, lookup-without b.content_hash h s.blob_files);
    frame = record {
      rows = λ h p. p;
      files = λ h p q. ground (arith, p, q, k, lookup-without b.content_hash h s.blob_files);
    };
    serves = λ h u. elim (Bool-cases (b.content_hash == h)) [
      | inl m ↦ inr (inl m)
      | inr m ↦
          Serves-quiet sha256 Av s (quarantining t b seen rest)
            (judging t b seen content rest, take_blob b.content_hash s) h
            (λ p. ground (arith, p, m, lookup-without b.content_hash h s.blob_files)) refl
            (g.available h u)
    ];
    tidy = (g.addressed b.content_hash content e, l);
  }

  -- The quarantined file is restored for an active row.
  restoring-Respects :
      (t : Tally) (b : Blob) (seen : Option BlobState) (content : List ℕ) (rest : List Blob)
      → (sha256 content ≡ b.content_hash) × Listed s rest
      → Respects sha256 Av s (judging t b seen content rest) (restoring t b content rest, s)
  unfolding quarantines
  restoring-Respects t b seen content rest x = record {
    addressed = g.addressed;
    frame = same-Frame sha256 s;
    serves = λ h u. elim (Bool-cases (b.content_hash == h)) [
      | inl m ↦ inr (inl m)
      | inr m ↦
          Serves-quiet sha256 Av s (judging t b seen content rest) (restoring t b content rest, s) h
            (λ p. p) m (g.available h u)
    ];
    tidy = x;
  }

  -- It may go if the row is not usable.
  discarding-Respects :
      (t u : Tally) (b : Blob) (seen : Option BlobState) (content : List ℕ) (rest : List Blob)
      → usable b.content_hash s ≡ false
      → Listed s rest
      → Respects sha256 Av s (judging t b seen content rest) (sweeping u rest, s)
  unfolding quarantines
  discarding-Respects t u b seen content rest e l = record {
    addressed = g.addressed;
    frame = same-Frame sha256 s;
    serves = λ h k. elim (Bool-cases (b.content_hash == h)) [
      | inl m ↦ ground (arith, e, k, m)
      | inr m ↦
          Serves-quiet sha256 Av s (judging t b seen content rest) (sweeping u rest, s) h (λ p. p) m
            (g.available h k)
    ];
    tidy = l;
  }

  pub judged-Respects :
      (o : Option BlobState) (t : Tally) (b : Blob) (seen : Option BlobState) (content : List ℕ)
      (rest : List Blob)
      → row_state b.content_hash s ≡ o
      → o ≢ some pending
      → (sha256 content ≡ b.content_hash) × Listed s rest
      → Respects sha256 Av s (judging t b seen content rest) (judged o t b content rest, s)
  unfolding judged row_state
  judged-Respects (some active) t b seen content rest e n x =
      restoring-Respects t b seen content rest x
  judged-Respects (some pending) t b seen content rest e n x = elim (n refl) [ ]
  judged-Respects (some deleted) t b seen content rest e n x =
      discarding-Respects t (free_one b t) b seen content rest (ground (arith, e)) x.1
  judged-Respects none t b seen content rest e n x =
      discarding-Respects t (free_one b t) b seen content rest (ground (arith, e)) x.1

  pub restore-Respects :
      (t : Tally) (b : Blob) (content : List ℕ) (rest : List Blob)
      → (sha256 content ≡ b.content_hash) × Listed s rest
      → Respects sha256 Av s
          (restoring t b content rest)
          (sweeping t rest, place_blob b.content_hash content s)
  unfolding place_blob quarantines
  restore-Respects t b content rest x = record {
    addressed = λ h c k.
        ground (arith, x.0, k, g.addressed h c, lookup-put b.content_hash h content s.blob_files);
    frame = record {
      rows = λ h k. k;
      files = λ h k p. ground (arith, p, lookup-put b.content_hash h content s.blob_files);
    };
    serves = λ h u. elim (Bool-cases (b.content_hash == h)) [
      | inl m ↦ inl (ground (arith, m, lookup-put b.content_hash h content s.blob_files))
      | inr m ↦
          Serves-quiet sha256 Av s (restoring t b content rest)
            (sweeping t rest, place_blob b.content_hash content s) h
            (λ p. ground (arith, p, lookup-put b.content_hash h content s.blob_files)) m
            (g.available h u)
    ];
    tidy = x.1;
  }
