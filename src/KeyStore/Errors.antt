-- ===== src/KeyStore/Errors.antt =====
-- What a key file that loads holds, and which line an error is about.
use axsh.Prelude.{
  ◌⊎◌, ℕ, suc, ◌+◌, ◌≡◌, refl, sym, ap, ◌∙◌, true, false, Bool-cases, inl, inr, Bytes, bytes_eq,
  bytes_eq→eq, All, length, List, [], ◌∷◌, ◌++◌, arith, Option, none, some, Result, ok, err, ◌>>=◌,
  bind-ok, ok-injective, map_err, map_err-ok,
}
use mathlib.Core.Path.{subst}
use mathlib.Core.Logic.{◌↔◌}
use axsh.Crypto.{Crypto}
use axsh.KeyFile.{LineError, parse_authorized_conn_key, parse_known_host}
use axsh.KeyStore.Text.{trim, lines}
use axsh.KeyStore.Loaded.{load_lines-append}
use axsh.KeyStore.Load.{
  File, missing, unreadable, holds, LoadError, invalid, duplicate, Map, get, insert,
  unless_replaced, skipped, load_line, load_lines, load_known_hosts, by_digest,
  load_authorized_keys,
}

module _ (entry : Bytes → Result LineError (Bytes × Bytes)) where
  -- What a line that loads has done.
  abbrev Effect : Map → Bytes → Map → Type 0
  Effect map line map' =
      ((skipped (trim line) ≡ true) × (map' ≡ map))
      ⊎ ((skipped (trim line) ≡ false)
          × ((key : Bytes) × (value : Bytes) × (entry (trim line) ≡ ok (key, value))
              × (get key map ≡ none)
              × (map' ≡ (key, value) ∷ map)))

  unless_replaced-ok :
      (n : ℕ) (old : Option Bytes) (map map' : Map)
      → unless_replaced n (old, map) ≡ ok map'
      → (old ≡ none) × (map' ≡ map)
  unless_replaced-ok n none map map' e = (refl, sym (ok-injective e))
  unless_replaced-ok n (some v) map map' e = cc e

  load_line-Effect :
      (n : ℕ) (map map' : Map) (line : Bytes)
      → load_line entry n map line ≡ ok map'
      → Effect map line map'
  unfolding load_line
  load_line-Effect n map map' line e = elim (Bool-cases (skipped (trim line))) [
    | inl skip ↦ inl (skip, sym (ok-injective (rw skip at e)))
    | inr read ↦
        let ((key, value), e1, e2) =
          bind-ok (map_err (invalid (n + 1)) (entry (trim line))) _ (rw read at e) in
        let (new, same) = unless_replaced-ok (n + 1) (get key map) ((key, value) ∷ map) map' e2 in
        inr (read, (key, value, map_err-ok _ _ e1, new, same))
  ]

  -- Every property of entries that the lines have, the entries of the map have.
  load_lines-All :
      (P : Bytes × Bytes → Type 0)
      → ((line key value : Bytes) → entry line ≡ ok (key, value) → P (key, value))
      → (n : ℕ) (map map' : Map) (ls : List Bytes) → All P map
      → load_lines entry n map ls ≡ ok map'
      → All P map'
  unfolding load_lines
  load_lines-All P f n map map' [] h e = subst (All P) (ok-injective e) h
  load_lines-All P f n map map' (line ∷ ls) h e =
      let (m, e1, e2) = bind-ok (load_line entry n map line) _ e in
      load_lines-All P f (suc n) m map' ls (step m (load_line-Effect n map m line e1)) e2
    where
      step : (m : Map) → Effect map line m → All P m
      step m (inl (skip, same)) = subst (All P) (sym same) h
      step m (inr (read, (key, value, got, new, same))) =
          subst (All P) (sym same) (f (trim line) key value got, h)

  -- No key is there twice.
  abbrev pub Distinct : Map → Type 0
  Distinct [] = Unit
  Distinct ((k, v) ∷ rest) = (get k rest ≡ none) × Distinct rest

  load_lines-Distinct :
      (n : ℕ) (map map' : Map) (ls : List Bytes)
      → Distinct map
      → load_lines entry n map ls ≡ ok map'
      → Distinct map'
  unfolding load_lines
  load_lines-Distinct n map map' [] h e = subst Distinct (ok-injective e) h
  load_lines-Distinct n map map' (line ∷ ls) h e =
      let (m, e1, e2) = bind-ok (load_line entry n map line) _ e in
      load_lines-Distinct (suc n) m map' ls (step m (load_line-Effect n map m line e1)) e2
    where
      step : (m : Map) → Effect map line m → Distinct m
      step m (inl (skip, same)) = subst Distinct (sym same) h
      step m (inr (read, (key, value, got, new, same))) = subst Distinct (sym same) (new, h)

  -- Why a line is refused: it is no entry, or the map has its key.
  abbrev Reason : ℕ → Map → Bytes → LoadError → Type 0
  Reason n map line e =
      ((x : LineError) × (entry (trim line) ≡ err x) × (e ≡ invalid (n + 1) x))
      ⊎ ((key : Bytes) × (value : Bytes) × (old : Bytes) × (entry (trim line) ≡ ok (key, value))
          × (get key map ≡ some old)
          × (e ≡ duplicate (n + 1)))

  -- The first line that does not load, behind lines that do.
  pub record Blamed (n : ℕ) (map : Map) (ls : List Bytes) (e : LoadError) : Type 0 where
    pub before : List Bytes
    pub line : Bytes
    pub later : List Bytes
    pub reached : Map
    pub shape : ls ≡ before ++ (line ∷ later)
    pub loaded : load_lines entry n map before ≡ ok reached
    pub read : skipped (trim line) ≡ false
    pub reason : Reason (n + length before) reached line e

  load_line-Reason :
      (n : ℕ) (map : Map) (line : Bytes) (e : LoadError)
      → load_line entry n map line ≡ err e
      → (skipped (trim line) ≡ false) × Reason n map line e
  unfolding load_line
  load_line-Reason n map line e p = elim (Bool-cases (skipped (trim line))) [
    | inl skip ↦ cc (rw skip at p)
    | inr read ↦ (read, because (entry (trim line)) refl (rw read at p))
  ]
    where
      replaced :
          (key value : Bytes) (old : Option Bytes)
          → entry (trim line) ≡ ok (key, value)
          → get key map ≡ old
          → unless_replaced (n + 1) (old, (key, value) ∷ map) ≡ err e
          → Reason n map line e
      replaced key value none got q p = cc p
      replaced key value (some old) got q p = inr (key, value, old, got, q, cc p)

      because :
          (r : Result LineError (Bytes × Bytes))
          → entry (trim line) ≡ r
          → (map_err (invalid (n + 1)) r >>= λ (key, value).
              unless_replaced (n + 1) (insert key value map))
            ≡ err e
          → Reason n map line e
      because (err x) q p = inl (x, q, cc p)
      because (ok (key, value)) q p = replaced key value (get key map) q refl p

  Reason-load_line :
      (n : ℕ) (map : Map) (line : Bytes) (e : LoadError)
      → skipped (trim line) ≡ false
      → Reason n map line e
      → load_line entry n map line ≡ err e
  unfolding load_line
  Reason-load_line n map line e read (inl (x, bad, same)) = rw (read, bad, same)
  Reason-load_line n map line e read (inr (key, value, old, got, there, same)) =
      rw (read, got, there, same)

  load_lines-Blamed :
      (n : ℕ) (map : Map) (ls : List Bytes) (e : LoadError)
      → load_lines entry n map ls ≡ err e
      → Blamed n map ls e
  unfolding load_lines
  load_lines-Blamed n map [] e p = cc p
  load_lines-Blamed n map (line ∷ ls) e p =
      first (load_line entry n map line) refl p (λ m q. load_lines-Blamed (suc n) m ls e q)
    where
      extend :
          (m : Map)
          → load_line entry n map line ≡ ok m
          → Blamed (suc n) m ls e
          → Blamed n map (line ∷ ls) e
      extend m q b = record {
        before = line ∷ b.before;
        line = b.line;
        later = b.later;
        reached = b.reached;
        shape = ap (λ (t : List Bytes). line ∷ t) b.shape;
        loaded = rw q b.loaded;
        read = b.read;
        reason = subst (λ (k : ℕ). Reason k b.reached b.line e) (omega arith) b.reason;
      }

      first :
          (r : Result LoadError Map)
          → load_line entry n map line ≡ r
          → (r >>= λ m. load_lines entry (suc n) m ls) ≡ err e
          → ((m : Map) → load_lines entry (suc n) m ls ≡ err e → Blamed (suc n) m ls e)
          → Blamed n map (line ∷ ls) e
      first (ok m) q p ih = extend m q (ih m p)
      first (err x) q p ih =
          let (read, reason) = load_line-Reason n map line e (q ∙ p) in
          record {
            before = [];
            line = line;
            later = ls;
            reached = map;
            shape = refl;
            loaded = refl;
            read = read;
            reason = subst (λ (k : ℕ). Reason k map line e) (omega arith) reason;
          }

  Blamed-load_lines :
      (n : ℕ) (map : Map) (ls : List Bytes) (e : LoadError)
      → Blamed n map ls e
      → load_lines entry n map ls ≡ err e
  Blamed-load_lines n map ls e b =
      rw (b.shape, load_lines-append entry n map b.before (b.line ∷ b.later), b.loaded)
        (unfold load_lines in
          rw (Reason-load_line (n + length b.before) b.reached b.line e b.read b.reason))

-- Loading the text of known_hosts fails exactly for the first line, trimmed, not empty and no comment,
-- that is no entry or has the host of a line before it; the error has the number of that line.
pub load_known_hosts_err_iff :
    (contents : Bytes) (e : LoadError)
    → (load_known_hosts (holds contents) ≡ err e) ↔ Blamed parse_known_host 0 [] (lines contents) e
unfolding load_known_hosts
load_known_hosts_err_iff contents e = (
  load_lines-Blamed parse_known_host 0 [] (lines contents) e,
  Blamed-load_lines parse_known_host 0 [] (lines contents) e,
)

module _ (c : Crypto) where
  by_digest-ok :
      (line digest key : Bytes) → by_digest c line ≡ ok (digest, key) → digest ≡ c.sha256 key
  by_digest-ok line digest key e =
      let (k, e1, e2) = bind-ok (parse_authorized_conn_key line) _ e in cc e2

  get-All :
      (map : Map) (digest key : Bytes)
      → All (λ (d, k). d ≡ c.sha256 k) map
      → get digest map ≡ some key
      → digest ≡ c.sha256 key
  unfolding get
  get-All [] digest key h e = cc e
  get-All ((d, k) ∷ map) digest key h e = elim (Bool-cases (bytes_eq d digest)) [
    | inl same ↦
        let value : k ≡ key = cc (rw same at e) in
        sym (bytes_eq→eq d digest same) ∙ h.0 ∙ ap c.sha256 value
    | inr other ↦ get-All map digest key h.1 (rw other at e)
  ]

  -- Whatever the file of authorized keys holds: a key that is found under a digest has this digest, and
  -- no digest is there twice.
  pub load_authorized_keys-ByDigest :
      (file : File) (map : Map)
      → load_authorized_keys c file ≡ ok map
      → ((digest key : Bytes) → get digest map ≡ some key → digest ≡ c.sha256 key)
        × Distinct (by_digest c) map
  unfolding load_authorized_keys
  load_authorized_keys-ByDigest missing map e = cc e
  load_authorized_keys-ByDigest unreadable map e = cc e
  load_authorized_keys-ByDigest (holds contents) map e = (
    λ digest key. get-All map digest key (
        load_lines-All (by_digest c) (λ (d, k). d ≡ c.sha256 k) by_digest-ok 0 [] map
          (lines contents) tt e),
    load_lines-Distinct (by_digest c) 0 [] map (lines contents) tt e,
  )
