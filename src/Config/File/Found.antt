-- ===== src/Config/File/Found.antt =====
-- What the search for the configuration file finds.
use ingest.Prelude.{
  Bool-cases, GoString, Key-false, Key-sound, ap, arith, false, if◌then◌else◌, inl, inr, length,
  nat_key, refl, some, suc, text_key, zero, ℕ, ◌==◌, ◌∷◌, ◌≡◌, ◌≢◌, ◌≤◌, ◌⊎◌,
}
use ingest.Config.Path.{dir_of, is_abs, join_path}
use ingest.Config.Path.Shorter.{dir_of-rooted, dir_of_shorter}
use ingest.Config.File.{
  Resolved, Stat, bad_candidate, directory, not_exist, not_found, regular, resolve_absolute,
  resolve_config_file_path, resolved, search_upward, stat_error,
}

-- A candidate over which the search goes on.
abbrev pub Passes : Stat → Type 0
Passes regular = ⊥
Passes directory = Unit
Passes not_exist = Unit
Passes (stat_error _) = ⊥

Stat-cases :
    (x : Stat)
    → (x ≡ regular) ⊎ ((e : GoString) × (x ≡ stat_error e)) ⊎ (x ≡ directory) ⊎ (x ≡ not_exist)
Stat-cases regular = inl refl
Stat-cases directory = inr (inr (inl refl))
Stat-cases not_exist = inr (inr (inr refl))
Stat-cases (stat_error e) = inr (inl (e, refl))

-- a path of which `os.Stat` gives no error
abbrev pub Exists : (GoString → Stat) → GoString → Type 0
Exists stat file = (stat file ≡ regular) ⊎ (stat file ≡ directory)

module _ (stat : GoString → Stat) (p : GoString) where
  -- The search for `p` from a directory upward: it ends at the nearest candidate that is a regular
  -- file, fails at one that cannot be examined, and gives up at the directory that is its own
  -- parent.
  pub data Search : GoString → Resolved → Type 0 where
    hit :
        {dir : GoString}
        → stat (join_path dir p) ≡ regular
        → Search dir (resolved (join_path dir p))
    denied :
        {dir e : GoString}
        → stat (join_path dir p) ≡ stat_error e
        → Search dir (bad_candidate (join_path dir p))
    top :
        {dir : GoString} → Passes (stat (join_path dir p)) → dir_of dir ≡ dir → Search dir not_found
    up :
        {dir : GoString} {r : Resolved}
        → Passes (stat (join_path dir p))
        → dir_of dir ≢ dir
        → Search (dir_of dir) r
        → Search dir r

  onward :
      (fuel : ℕ) (dir : GoString)
      → Passes (stat (join_path dir p))
      → (dir_of dir ≢ dir
          → (r : Resolved) × (search_upward stat fuel p (dir_of dir) ≡ some r)
            × Search (dir_of dir) r)
      → (r : Resolved) × ((if dir_of dir == dir
            then some not_found
            else search_upward stat fuel p (dir_of dir))
          ≡ some r)
        × Search dir r
  onward fuel dir h further = elim (Bool-cases (dir_of dir == dir)) [
    | inl same ↦ rw same (not_found, refl, top h (Key-sound (dir_of dir) dir same))
    | inr other ↦
        let ne = Key-false (dir_of dir) dir other in
        let (r, e, s) = further ne in rw other (r, e, up h ne s)
  ]

  -- From a rooted directory the search ends within as many rounds as its path has bytes.
  search_upward-Search :
      (fuel : ℕ) (s : GoString)
      → length (47 ∷ s) ≤ fuel
      → (r : Resolved) × (search_upward stat fuel p (47 ∷ s) ≡ some r) × Search (47 ∷ s) r
  unfolding search_upward
  search_upward-Search zero s h = absurd (omega arith)
  search_upward-Search (suc fuel) s h =
      let further : dir_of (47 ∷ s) ≢ 47 ∷ s
          → (r : Resolved) × (search_upward stat fuel p (dir_of (47 ∷ s)) ≡ some r)
            × Search (dir_of (47 ∷ s)) r =
        λ ne. elim (dir_of_shorter s) [
          | inl same ↦ absurd (ne same)
          | inr short ↦
              let (t, e) = dir_of-rooted s in
              rw e (search_upward-Search fuel t (omega (arith, short, ap length e)))
        ] in
      elim (Stat-cases (stat (join_path (47 ∷ s) p))) [
        | inl e ↦ rw (search_upward, e) (resolved (join_path (47 ∷ s) p), refl, hit e)
        | inr (inl (x, e)) ↦
            rw (search_upward, e) (bad_candidate (join_path (47 ∷ s) p), refl, denied e)
        | inr (inr (inl e)) ↦ rw (search_upward, e) (onward fuel (47 ∷ s) (rw e tt) further)
        | inr (inr (inr e)) ↦ rw (search_upward, e) (onward fuel (47 ∷ s) (rw e tt) further)
      ]

  -- The search for the configuration file ends, whatever the file system holds: for a relative
  -- path and a working directory that is rooted, there is an answer, and it is that of the
  -- search from the working directory upward.
  pub resolve_config_file_path-Search :
      (s : GoString)
      → is_abs p ≡ false
      → (r : Resolved) × (resolve_config_file_path stat (some (47 ∷ s)) p ≡ some r)
        × Search (47 ∷ s) r
  unfolding resolve_config_file_path
  resolve_config_file_path-Search s h =
      let (r, e, found) = search_upward-Search (length (47 ∷ s)) s (omega arith) in
      rw h (r, e, found)

  Search-Exists :
      {dir : GoString} {r : Resolved} (file : GoString)
      → Search dir r
      → r ≡ resolved file
      → Exists stat file
  Search-Exists file (hit h) e = inl (cc)
  Search-Exists file (denied h) e = cc
  Search-Exists file (top h k) e = cc
  Search-Exists file (up h k s) e = Search-Exists file s e

  resolve_absolute-Exists :
      (file : GoString) → resolve_absolute stat p ≡ resolved file → Exists stat file
  unfolding resolve_absolute
  resolve_absolute-Exists file e = elim (Stat-cases (stat p)) [
    | inl k ↦ inl (ground arith)
    | inr (inl (x, k)) ↦ cc (k, e)
    | inr (inr (inl k)) ↦ inr (ground arith)
    | inr (inr (inr k)) ↦ cc (k, e)
  ]

  pub resolve_config_file_path-Exists :
      (s file : GoString) (r : Resolved)
      → resolve_config_file_path stat (some (47 ∷ s)) p ≡ some r
      → r ≡ resolved file
      → Exists stat file
  resolve_config_file_path-Exists s file r e same = elim (Bool-cases (is_abs p)) [
    | inl absolute ↦ resolve_absolute-Exists file (unfold resolve_config_file_path in ground arith)
    | inr relative ↦
        let (q, known, found) = resolve_config_file_path-Search s relative in
        Search-Exists file found (cc)
  ]

  pub resolve_config_file_path_total :
      (s : GoString) → (r : Resolved) × (resolve_config_file_path stat (some (47 ∷ s)) p ≡ some r)
  resolve_config_file_path_total s = elim (Bool-cases (is_abs p)) [
    | inl absolute ↦ (resolve_absolute stat p, unfold resolve_config_file_path in rw absolute)
    | inr relative ↦ let (r, e, found) = resolve_config_file_path-Search s relative in (r, e)
  ]
