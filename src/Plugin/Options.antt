-- ===== src/Plugin/Options.antt =====
-- The setup file against the menu and the command line.
use vdr_plugin_dvbapi.Prelude.{
  ℕ, ◌^◌, ◌<◌, ◌≡◌, refl, ap, ◌∙◌, Bool, true, false, List, [], ◌∷◌, ltb, ◌==◌, if◌then◌else◌,
  arith,
}
use vdr_plugin_dvbapi.Plugin.{
  Settings, Menu, same_name, setup_parse, load, store_menu, name_log_level, name_host, name_port,
  name_fast_ecm, name_offset,
}

either_offset :
    (b : Bool) (x y : Bool × Settings) (n : ℕ)
    → x.1.offset ≡ n
    → y.1.offset ≡ n
    → (if b then x else y).1.offset ≡ n
either_offset true x y n hx hy = hx
either_offset false x y n hx hy = hy

module _ (atoi : List ℕ → ℕ) (copy_host : List ℕ → List ℕ) where
  parsed_offset :
      (name value : List ℕ) (s : Settings)
      → 0 < s.offset
      → (setup_parse atoi copy_host name value s).1.offset ≡ s.offset
  unfolding setup_parse
  parsed_offset name value s h =
      let is_set : (s.offset == 0) ≡ false = ground arith in
      let kept : Settings = record s { offset = atoi value } in
      let n = s.offset in
      either_offset (same_name name name_log_level) _ _ n refl (
        either_offset (same_name name name_host) _ _ n refl (
          either_offset (same_name name name_port) _ _ n refl (
            either_offset (same_name name name_fast_ecm) _ _ n refl (
              either_offset (same_name name name_offset) _ _ n
                (ap (λ b. (if b then kept else s).offset) is_set) refl))))

  -- An offset that is not 0 when VDR reads the setup file, as one from the command line, stays whatever
  -- the lines of the file are.
  offset-load :
      (lines : List (List ℕ × List ℕ)) (s : Settings)
      → 0 < s.offset
      → (load atoi copy_host lines s).offset ≡ s.offset
  unfolding load
  offset-load [] s h = refl
  offset-load ((name, value) ∷ lines) s h =
      let same = parsed_offset name value s h in
      offset-load lines (setup_parse atoi copy_host name value s).1 (omega (arith, same)) ∙ same

  -- What the menu stores, VDR gives back at the next start: SetupParse of the lines that Store writes
  -- sets the options as Store has set them, whatever they were, if a number below 2^31 is read as it
  -- was written, and a host that fits its array is copied as it is.
  pub load-store_menu :
      (decimal : ℕ → List ℕ) (m : Menu) (s t : Settings)
      → ((n : ℕ) → n < 2 ^ 31 → atoi (decimal n) ≡ n)
      → ((host : List ℕ) → copy_host (copy_host host) ≡ copy_host host)
      → m.new_port < 2 ^ 31
      → m.new_fast_ecm < 2 ^ 31
      → load atoi copy_host (store_menu atoi copy_host decimal m s).1 t
        ≡ record (store_menu atoi copy_host decimal m s).0 { offset = t.offset }
  unfolding load store_menu setup_parse same_name
  load-store_menu decimal m s t reads copies port fast =
      let level = if ltb 3 m.new_log_level then 3 else m.new_log_level in
      let small : level < 2 ^ 31 = ground arith in
      rw (reads level small, copies m.new_host, reads m.new_port port, reads m.new_fast_ecm fast)
        refl
