-- ===== src/System/Cloud/Syncing.antt =====
-- The conversation of `sync` in src/system/julius_cloud.py: when it ends, and what it writes.
use julius_os.Prelude.{
  ℕ, ◌+◌, ◌<◌, ◌≡◌, refl, sym, ap, subst, ◌∙◌, Bool, true, false, Option, none, some, List, [], ◌∷◌,
  ◌++◌, map, if◌then◌else◌, arith, length, take, drop,
}
use mathlib.Core.Option.{some-injective}
use julius_os.Prelude.Text.{Text, text_eq}
use julius_os.Outcome.{Outcome, done}
use julius_os.System.Stream.{Bytes, Segments, bytes, AllArrive, has_newline}
use julius_os.System.Stream.Line.{read_line-none, read_line-some}
use julius_os.System.Stream.Body.{read_body-whole}
use julius_os.System.Cloud.{
  Local, upload, download, manifest, synced, Cloud, join_path, find_local, Sync, say, World,
  uploaded, upload_found, upload_all, downloads_after, downloaded, download_sized, download_line,
  download_one, go_on, download_all, exchange_names, exchange_line, exchange, finish, save_config,
  stored, sync_file, sync_error, run,
}

-- A file that the server sends: its name, the line that tells its size, and its content.
pub record Sending : Type 0 where
  pub name : Text
  pub line : Bytes
  pub content : Bytes

-- The server's bytes for the files, in their order.
unfoldable pub stream : List Sending → Bytes
stream [] = []
stream (d ∷ ds) = d.line ++ 10 ∷ (d.content ++ stream ds)

-- The files that are written then, the latest first.
unfoldable pub writes : List Sending → List (Text × Bytes) → List (Text × Bytes)
writes [] old = old
writes (d ∷ ds) old = writes ds ((join_path d.name, d.content) ∷ old)

-- How many of the names are those of files.
unfoldable pub known : List Local → Option Local → ℕ
known files none = 0
known files (some f) = 1

unfoldable pub count_known : List Local → List Text → ℕ
count_known files [] = 0
count_known files (n ∷ ns) = known files (find_local n files) + count_known files ns

take_front : (b c : Bytes) → take (length b) (b ++ c) ≡ b
take_front [] c = refl
take_front (x ∷ b) c = ap (λ v. x ∷ v) (take_front b c)

drop_front : (b c : Bytes) → drop (length b) (b ++ c) ≡ c
drop_front [] c = refl
drop_front (x ∷ b) c = drop_front b c

module _ (w : World) where
  -- The line and the content are within the rounds, the line tells the size, and the file can be
  -- written.
  abbrev pub AllSent : ℕ → List Sending → Type 0
  AllSent fuel [] = Unit
  AllSent fuel (d ∷ ds) =
      (has_newline d.line ≡ false)
      × (w.size (d.line ++ 10 ∷ []) ≡ some (length d.content))
      × (w.cannot_open (join_path d.name) ≡ false)
      × (length d.line + length d.content < fuel)
      × AllSent fuel ds

  abbrev pub AllReadable : List Local → Type 0
  AllReadable [] = Unit
  AllReadable (f ∷ fs) = ((b : Bytes) × (w.read_file f.path ≡ some b)) × AllReadable fs

  -- A server that closes the connection before its first line ends keeps the thread from ending,
  -- whatever the number of rounds.
  pub run-none :
      (fuel : ℕ) (files after_files : List Local) (now : Text) (incoming : Segments) (s : Cloud)
      → has_newline (bytes incoming) ≡ false
      → run w fuel files after_files now incoming s ≡ none
  unfolding run exchange exchange_line finish
  run-none fuel files after_files now incoming s h = rw (read_line-none fuel [] incoming h) refl

  download_one-done :
      (fuel : ℕ) (d : Sending) (rest : Bytes) (p : Sync)
      → AllArrive p.incoming
      → bytes p.incoming ≡ d.line ++ 10 ∷ (d.content ++ rest)
      → AllSent fuel (d ∷ [])
      → (p' : Sync) × (download_one w fuel d.name p ≡ some (done p'))
        × (p'.cloud.written ≡ (join_path d.name, d.content) ∷ p.cloud.written)
        × (p'.count ≡ p.count + 1)
        × (bytes p'.incoming ≡ rest)
        × AllArrive p'.incoming
  unfolding download_one download_line download_sized downloaded has_newline
  download_one-done fuel d rest p a e h =
      let (segs, read, left, a') =
        read_line-some d.line fuel [] (d.content ++ rest) p.incoming a refl h.0 e
          (omega (arith, h.3)) in
      let (segs', got, left', a'') =
        read_body-whole fuel (length d.content) segs a' (omega (arith, h.3)) in
      let said = say (download d.name) p in
      (
        record said {
          cloud = record said.cloud {
            written = (join_path d.name, take (length d.content) (bytes segs)) ∷ p.cloud.written;
          };
          count = p.count + 1;
          incoming = segs';
        },
        rw (read, h.1, h.2, got) refl,
        ap (λ b. (join_path d.name, b) ∷ p.cloud.written)
            (ap (take (length d.content)) left ∙ take_front d.content rest),
        refl,
        left' ∙ ap (drop (length d.content)) left ∙ drop_front d.content rest,
        a'',
      )

  abbrev Downloads : ℕ → List Sending → Sync → Type 0
  Downloads fuel ds p =
      (p' : Sync) × (download_all w fuel (map (λ d. d.name) ds) p ≡ some (done p'))
      × (p'.cloud.written ≡ writes ds p.cloud.written)
      × (p'.count ≡ p.count + length ds)

  download_all-done :
      (fuel : ℕ) (ds : List Sending) (p : Sync)
      → AllArrive p.incoming
      → bytes p.incoming ≡ stream ds
      → AllSent fuel ds
      → Downloads fuel ds p
  unfolding download_all writes stream go_on
  download_all-done fuel [] p a e h = (p, refl, refl, omega arith)
  download_all-done fuel (d ∷ ds) p a e h =
      let (p', one, wrote, count, left, a') =
        download_one-done fuel d (stream ds) p a e (h.0, h.1, h.2, h.3, tt) in
      let (p'', all, wrote', count') = download_all-done fuel ds p' a' left h.4 in
      (p'', rw one all, wrote' ∙ ap (writes ds) wrote, omega (arith, count, count'))

  find_local-readable :
      (n : Text) (files : List Local) (f : Local)
      → AllReadable files
      → find_local n files ≡ some f
      → (b : Bytes) × (w.read_file f.path ≡ some b)
  unfolding find_local
  find_local-readable n [] f h e = cc
  find_local-readable n (g ∷ gs) f h e =
      on_name (text_eq g.name n) refl e (find_local-readable n gs f h.1)
    where
      on_name :
          (b : Bool)
          → text_eq g.name n ≡ b
          → find_local n (g ∷ gs) ≡ some f
          → (find_local n gs ≡ some f → (b : Bytes) × (w.read_file f.path ≡ some b))
          → (b : Bytes) × (w.read_file f.path ≡ some b)
      on_name true t e rest =
          let this : some g ≡ some f = rw (t, find_local) at e in
          subst (λ (v : Local). (b : Bytes) × (w.read_file v.path ≡ some b))
            (some-injective g f this) h.0
      on_name false t e rest =
          let that : find_local n gs ≡ some f = rw (t, find_local) at e in rest that

  -- Uploads take nothing off the connection and write no file.
  abbrev Uploaded : Sync → ℕ → Outcome Sync → Type 0
  Uploaded p k o =
      (p' : Sync) × (o ≡ done p')
      × (p'.incoming ≡ p.incoming)
      × (p'.cloud.written ≡ p.cloud.written)
      × (p'.count ≡ p.count + k)

  upload_found-done :
      (files : List Local) (n : Text) (o : Option Local) (p : Sync)
      → AllReadable files
      → find_local n files ≡ o
      → Uploaded p (known files o) (upload_found w n o p)
  unfolding upload_found uploaded known
  upload_found-done files n none p h e = (p, refl, refl, refl, omega arith)
  upload_found-done files n (some f) p h e =
      let (b, readable) = find_local-readable n files f h e in
      let said = say (upload n (length b) b) p in
      (record said { count = p.count + 1 }, rw readable refl, refl, refl, refl)

  upload_all-done :
      (files : List Local) (ns : List Text) (p : Sync)
      → AllReadable files
      → Uploaded p (count_known files ns) (upload_all w files ns p)
  unfolding upload_all count_known
  upload_all-done files [] p h = (p, refl, refl, refl, omega arith)
  upload_all-done files (n ∷ ns) p h =
      let (p', one, same, kept, count) = upload_found-done files n (find_local n files) p h refl in
      let (p'', all, same', kept', count') = upload_all-done files ns p' h in
      (p'', rw one all, same' ∙ same, kept' ∙ kept, omega (arith, count, count'))

  stored_lem :
      (now : Text) (after_files : List Local) (p : Sync)
      → let s' = stored w now after_files p in
        (s'.written ≡ p.cloud.written)
        × (s'.status ≡ (if w.cannot_open sync_file then sync_error else synced p.count))
        × (s'.syncing ≡ false)
  unfolding stored save_config
  stored_lem now after_files p = (ground arith, ground arith, ground arith)

  -- If every file of the directory can be read, and the server's line names what it needs and
  -- what it sends, and then its files follow, in any pieces, each in a line with its size and
  -- its content, then the thread ends: each content is written to its file, the status tells the
  -- number of the files sent and received, or an error where SYNC_FILE cannot be opened, and the
  -- program is not syncing any more.
  pub run-synced :
      (fuel : ℕ) (files after_files : List Local) (now : Text) (incoming : Segments) (s : Cloud)
      (line : Bytes) (need : List Text) (ds : List Sending)
      → AllArrive incoming
      → bytes incoming ≡ line ++ 10 ∷ stream ds
      → has_newline line ≡ false
      → length line < fuel
      → w.names (line ++ 10 ∷ []) ≡ some (need, map (λ d. d.name) ds)
      → AllReadable files
      → AllSent fuel ds
      → (s' : Cloud) × (run w fuel files after_files now incoming s ≡ some s')
        × (s'.written ≡ writes ds s.written)
        × (s'.status ≡ (
            if w.cannot_open sync_file
            then sync_error
            else synced (count_known files need + length ds)))
        × (s'.syncing ≡ false)
  unfolding run exchange exchange_line exchange_names downloads_after finish has_newline
  run-synced fuel files after_files now incoming s line need ds a e plain short names readable h =
      let start : Sync =
        say (manifest files) (record { cloud = s; count = 0; incoming = incoming }) in
      let (segs, read, left, a') =
        read_line-some line fuel [] (stream ds) incoming a refl plain e short in
      let (p, up, same, kept, count) =
        upload_all-done files need (record start { incoming = segs }) readable in
      let (p', down, wrote, count') =
        download_all-done fuel ds p (subst AllArrive (sym same) a') (ap bytes same ∙ left) h in
      let (told, status, ended) = stored_lem now after_files p' in
      (
        stored w now after_files p',
        rw (read, names, up, down) refl,
        told ∙ wrote ∙ ap (writes ds) kept,
        status
            ∙ ap (λ n. if w.cannot_open sync_file then sync_error else synced n) {x = p'.count}
                {y = count_known files need + length ds} (omega (arith, count, count')),
        ended,
      )
