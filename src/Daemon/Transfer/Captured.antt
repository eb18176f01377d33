-- ===== src/Daemon/Transfer/Captured.antt =====
-- The capture of the client takes the records of a result, in memory or in its file.
use mathlib.Core.List.{append_assoc, append-nil}
use symnav.Prelude.{
  ◌≡◌, refl, sym, ap, subst, ◌∙◌, inl, inr, ◌+◌, Bool, true, false, some, List, [], ◌∷◌, ◌++◌,
  arith, length, length-append, drop, All, ok, if◌then◌else◌,
}
use symnav.Daemon.Transfer.{DaemonSequencedOutputRecord}
use symnav.Daemon.Transfer.Sessions.{IsCapture}
use symnav.Daemon.Transfer.Capture.{
  CapturePlatform, DaemonClientResultCaptureOptions, DaemonClientResultCapture, Outcome, then_do,
  encoded, write_records, spill_inline_records, keep_record, spills, store_record, append_record,
  client_capture,
}
use symnav.Daemon.Transfer.Keeping.{
  HasRoom, encodings, Fits, IsAllowed, IsInPlace, Keeps, bytes_of-append, encodings-append,
  digested-append, All-front, All-last, IsAllowed-front, encode_record-encoded, check_record-ok,
}

module _ (platform : CapturePlatform) (room : HasRoom platform)
    (options : DaemonClientResultCaptureOptions) where
  write_records-written :
      (xs : List DaemonSequencedOutputRecord) (c : DaemonClientResultCapture)
      → All (Fits options) xs
      → write_records platform xs c ≡ (record c { written = c.written ++ encodings xs }, ok tt)
  unfolding write_records
  write_records-written [] c h = rw (append-nil c.written) refl
  write_records-written (x ∷ xs) c h =
      rw
        (
          encode_record-encoded options x h.0,
          room.writes (encoded x),
          write_records-written xs (record c { written = c.written ++ encoded x }) h.1,
        )
        (ap (λ w. (record c { written = w }, ok tt))
          (append_assoc c.written (encoded x) (encodings xs)))

  -- The file after the records went into it.
  abbrev spilled : DaemonClientResultCapture → DaemonClientResultCapture
  spilled c = record c {
    file_path = some (platform.new_path c.options.directory);
    file = true;
    written = encodings c.inline_records;
    inline_records = [];
  }

  spill-spilled :
      (c : DaemonClientResultCapture)
      → All (Fits options) c.inline_records
      → spill_inline_records platform c ≡ (spilled c, ok tt)
  unfolding spill_inline_records
  spill-spilled c h = rw (room.makes c.options.directory) (
      rw (room.opens (platform.new_path c.options.directory)) (
        rw
          (write_records-written c.inline_records
            (record c {
              file_path = some (platform.new_path c.options.directory);
              file = true;
              written = [];
            })
            h)
          refl))

  Stored : List DaemonSequencedOutputRecord → Outcome → Type 0
  Stored rs outcome = (c : DaemonClientResultCapture) × (outcome ≡ (c, ok tt)) × Keeps options rs c

  keep_record-Stored :
      (rs : List DaemonSequencedOutputRecord) (x : DaemonSequencedOutputRecord)
      (c : DaemonClientResultCapture)
      → Keeps options rs c
      → Stored (rs ++ x ∷ []) (keep_record platform (encoded x) x c)
  unfolding Stored
  keep_record-Stored rs x c k = by_place k.place
    where
      by_place :
          IsInPlace rs c
          → (c' : DaemonClientResultCapture) × (keep_record platform (encoded x) x c ≡ (c', ok tt))
            × Keeps options (rs ++ x ∷ []) c'
      by_place (inl (closed, held, no_path)) = (
        record c {
          inline_records = c.inline_records ++ x ∷ [];
          hashed = c.hashed ++ drop 4 (encoded x);
          raw_bytes = c.raw_bytes + length x.bytes;
          record_count = c.record_count + 1;
        },
        rw closed refl,
        record {
          own = k.own;
          going = k.going;
          sound = k.sound;
          number = omega (arith, k.number, length-append rs (x ∷ []));
          size = omega (arith, k.size, bytes_of-append rs (x ∷ []));
          digest = ap (λ h. h ++ drop 4 (encoded x)) k.digest ∙ sym (digested-append rs x);
          place = inl (closed, ap (λ l. l ++ x ∷ []) held, no_path);
        },
      )
      by_place (inr (open_file, none_held, bytes, path)) = (
        record c {
          written = c.written ++ encoded x;
          hashed = c.hashed ++ drop 4 (encoded x);
          raw_bytes = c.raw_bytes + length x.bytes;
          record_count = c.record_count + 1;
        },
        rw (open_file, room.writes (encoded x)) refl,
        record {
          own = k.own;
          going = k.going;
          sound = k.sound;
          number = omega (arith, k.number, length-append rs (x ∷ []));
          size = omega (arith, k.size, bytes_of-append rs (x ∷ []));
          digest = ap (λ h. h ++ drop 4 (encoded x)) k.digest ∙ sym (digested-append rs x);
          place = inr (
            open_file,
            none_held,
            ap (λ l. l ++ encoded x) bytes ∙ sym (encodings-append rs x),
            path,
          );
        },
      )

  -- A spill leaves the records kept.
  spilled-Keeps :
      (rs : List DaemonSequencedOutputRecord) (c : DaemonClientResultCapture)
      → Keeps options rs c
      → c.inline_records ≡ rs
      → Keeps options rs (spilled c)
  spilled-Keeps rs c k held = record {
    own = k.own;
    going = k.going;
    sound = k.sound;
    number = k.number;
    size = k.size;
    digest = k.digest;
    place = inr (refl, refl, ap encodings held, refl);
  }

  store_record-Stored :
      (rs : List DaemonSequencedOutputRecord) (x : DaemonSequencedOutputRecord)
      (c : DaemonClientResultCapture)
      → Keeps options rs c
      → All (Fits options) rs
      → Fits options x
      → Stored (rs ++ x ∷ []) (store_record platform x c)
  unfolding store_record
  store_record-Stored rs x c k fit h =
      rw (encode_record-encoded options x h) (by_spill (spills x c) refl)
    where
      by_spill :
          (b : Bool)
          → spills x c ≡ b
          → Stored (rs ++ x ∷ []) (
              then_do
                (if b then spill_inline_records platform c else (c, ok tt))
                (keep_record platform (encoded x) x))
      by_spill false e = keep_record-Stored rs x c k
      by_spill true e =
          let held = in_memory k.place in
          subst (λ o. Stored (rs ++ x ∷ []) (then_do o (keep_record platform (encoded x) x)))
            (sym (spill-spilled c (subst (All (Fits options)) (sym held) fit)))
            (keep_record-Stored rs x (spilled c) (spilled-Keeps rs c k held))
        where
          in_memory : IsInPlace rs c → c.inline_records ≡ rs
          in_memory (inl (closed, held, no_path)) = held
          in_memory (inr (open_file, none_held, bytes, path)) = absurd (ground arith)

  -- The capture of the client takes what is allowed.
  pub client-IsCapture : IsCapture (client_capture platform) (Keeps options) (IsAllowed options)
  unfolding Stored
  client-IsCapture = record {
    takes = λ rs x c k h. takes_one rs x c k h;
    fronts = IsAllowed-front options;
  }
    where
      takes_one :
          (rs : List DaemonSequencedOutputRecord) (x : DaemonSequencedOutputRecord)
          (c : DaemonClientResultCapture)
          → Keeps options rs c
          → IsAllowed options (rs ++ x ∷ [])
          → (c' : DaemonClientResultCapture) × ((client_capture platform).append x c ≡ ok c')
            × Keeps options (rs ++ x ∷ []) c'
      takes_one rs x c k h =
          let (c', e, k') =
            store_record-Stored rs x c k (All-front (Fits options) rs (x ∷ []) h.1)
              (All-last (Fits options) rs x h.1) in
          (c', unfold append_record in rw (check_record-ok options rs x c k h) (rw e refl), k')
