-- ===== src/Transfer/RoundTrip.antt =====
-- What an export with keys gives, an import with the same password reads.
use syncent.Base.{
  ℕ, String, true, false, none, some, List, [], ◌++◌, length, length-append, codes, has_prefix,
  str_eq, eq_iff, ==_iff, ◌≡◌, ◌≢◌, refl, sym, ◌∙◌, ap, arith, Bool-cases, inl, inr,
}
use syncent.External.{External}
use syncent.Config.{Config}
use syncent.Database.{Server}
use syncent.Crypto.{encrypt, decrypt, ok, new_cipher_ok}
use syncent.Crypto.RoundTrip.{
  CipherLaws, decrypt-encrypt, sealed-not_empty, take-length_append, drop-length_append,
  not_too_short,
}
use syncent.Crypto.Keys.{KeyLib}
use syncent.Transfer.{
  ExportLib, derive_key, export_encrypt, open_export, export_decrypt, Exported, without_keys,
  present, gsocket_text, add_keys, export_row,
}
use syncent.Transfer.Import.{
  FileServer, secrets, sealed_text, gsocket_secrets, key_secrets, import_secrets,
}

-- Documented behaviour of encoding/hex and of pbkdf2.
pub record ExportLaws (lib : ExportLib) : Type 0 where
  pub hex_decode-encode : (b : List ℕ) → lib.hex_decode (lib.hex_encode b) ≡ some b
  pub hex_decode_empty : lib.hex_decode "" ≡ some []
  pub size : (p salt : List ℕ) (rounds n : ℕ) → length (lib.pbkdf2 p salt rounds n) ≡ n

-- The entry of a file as it is read again.
abbrev pub read_again : Exported → FileServer
read_again e = record {
  name = e.name;
  ip_address = e.ip_address;
  ssh_username = e.ssh_username;
  ssh_port = some e.ssh_port;
  connection_mode = some e.connection_mode;
  health_check_interval = some e.health_check_interval;
  encrypted_gsocket_secret = e.encrypted_gsocket_secret;
  gsocket_secret = none;
  encrypted_key = e.encrypted_key;
  public_key = e.public_key;
  tags = e.tags;
  expected_services = e.expected_services;
  log_paths = e.log_paths;
  location = elim e.location [ none ↦ "" | some l ↦ l ];
  notes = elim e.notes [ none ↦ "" | some n ↦ n ];
}

-- the mode of a file is the server's
pub mode_of-direct :
    (m : String)
    → m ≢ "gsocket"
    → str_eq (elim (present (some m)) [ none ↦ "direct" | some k ↦ k ]) "gsocket" ≡ false
mode_of-direct m differs = elim (Bool-cases (str_eq m "")) [
  | inl empty ↦ rw (empty) refl
  | inr given ↦ rw (given) (ground (arith, eq_iff m "gsocket", differs))
]

pub mode_of-gsocket :
    (m : String)
    → m ≡ "gsocket"
    → str_eq (elim (present (some m)) [ none ↦ "direct" | some k ↦ k ]) "gsocket" ≡ true
mode_of-gsocket m same =
    ap (λ k. str_eq (elim (present (some k)) [ none ↦ "direct" | some k ↦ k ]) "gsocket") same

module _ (x : External) (laws : CipherLaws x) (lib : ExportLib) (export_laws : ExportLaws lib) where
  derived_fits : (pass : String) → new_cipher_ok (derive_key x lib pass) ≡ true
  unfolding derive_key
  derived_fits pass =
      let size = export_laws.size (x.bytes pass) (x.bytes "syncent-export-v1") 100000 32 in
      rw (size) refl

  open_export-sealed :
      (key nonce : List ℕ) (s : String)
      → length nonce ≡ 12
      → new_cipher_ok key ≡ true
      → open_export x lib key (nonce ++ x.gcm_seal key nonce (x.bytes s)) ≡ some s
  unfolding open_export
  open_export-sealed key nonce s size fits =
      let sealed = x.gcm_seal key nonce (x.bytes s) in
      rw
        (
          fits,
          not_too_short x laws key nonce sealed size,
          take-length_append nonce sealed 12 size,
          drop-length_append nonce sealed 12 size,
          laws.open-seal key nonce (x.bytes s),
        )
        (ap some (laws.text-bytes s))

  -- An export password of any kind seals every text, and opens it again.
  pub export_decrypt-export_encrypt :
      (nonce : List ℕ) (s pass : String)
      → length nonce ≡ 12
      → (h : String) × (export_encrypt x lib nonce s pass ≡ some h)
        × (export_decrypt x lib h pass ≡ some s)
        × (h ≢ "")
  unfolding export_encrypt export_decrypt
  export_decrypt-export_encrypt nonce s pass size =
      let key = derive_key x lib pass in
      let data' = nonce ++ x.gcm_seal key nonce (x.bytes s) in
      let fits = derived_fits pass in
      (
        lib.hex_encode data',
        rw (export_encrypt, fits, (==_iff (length nonce) 12).1 size) refl,
        rw (export_decrypt, export_laws.hex_decode-encode data')
            (open_export-sealed key nonce s size fits),
        λ empty.
            let decoded : some data' ≡ some [] =
              sym (export_laws.hex_decode-encode data')
              ∙ ap lib.hex_decode empty
              ∙ export_laws.hex_decode_empty in
            let none_left : data' ≡ [] = cc decoded in
            let same : length data' ≡ 0 = ap length none_left in
            omega (arith, same, size, length-append nonce (x.gcm_seal key nonce (x.bytes s))),
      )

  -- a sealed key of the file, opened and sealed again
  key_secrets-opens :
      (c : Config) (keys : KeyLib) (pass : String) (f : FileServer) (draw : ℕ) (nonce : List ℕ)
      {h pem : String}
      → f.encrypted_key ≡ some h
      → str_eq h "" ≡ false
      → str_eq pass "" ≡ false
      → export_decrypt x lib h pass ≡ some pem
      → has_prefix (codes pem) (codes "-----BEGIN") ≡ true
      → x.base64_decode "" ≡ some []
      → new_cipher_ok c.master_key ≡ true
      → length nonce ≡ 12
      → (again : String) × (key_secrets x lib c keys true pass draw nonce f
          ≡ secrets again (elim f.public_key [ none ↦ "" | some pk ↦ pk ]) none)
        × (decrypt x c.master_key again ≡ ok pem)
  unfolding key_secrets sealed_text encrypt
  key_secrets-opens c keys pass f draw nonce {h} {pem} sealed full given opened begins empty fits
        size =
      let again = x.base64_encode (nonce ++ x.gcm_seal c.master_key nonce (x.bytes pem)) in
      let done : encrypt x c.master_key nonce pem ≡ ok again =
        rw (encrypt, fits, (==_iff (length nonce) 12).1 size) refl in
      let opens = decrypt-encrypt x laws c.master_key nonce pem again size done in
      let not_empty : str_eq again "" ≡ false =
        sealed-not_empty x c.master_key again pem empty opens in
      (
        again,
        rw (key_secrets, sealed_text, sealed, full, given, opened, begins, done, not_empty) refl,
        opens,
      )

  module _ (c₁ c₂ : Config) (keys : KeyLib) (pass : String) (s : Server) (interval : ℕ)
      (nonce : List ℕ) where
    abbrev pub file_entry : FileServer
    file_entry = read_again (export_row x lib c₁ pass true nonce s interval)

    pub export_row-key :
        {enc pem h : String}
        → gsocket_text s ≡ none
        → present s.encrypted_private_key ≡ some enc
        → decrypt x c₁.master_key enc ≡ ok pem
        → export_encrypt x lib nonce pem pass ≡ some h
        → export_row x lib c₁ pass true nonce s interval
          ≡ record (without_keys s interval) { encrypted_key = some h; public_key = s.public_key }
    unfolding export_row add_keys
    export_row-key direct has_key opens sealed =
        rw (export_row, add_keys, direct, has_key, opens, sealed) refl

    -- what the import makes of an exported key
    pub imported_key_secrets :
        {enc pem : String} (draw : ℕ) (nonce₂ : List ℕ)
        → s.name ≢ ""
        → s.ip_address ≢ ""
        → s.ssh_username ≢ ""
        → s.connection_mode ≢ "gsocket"
        → present s.encrypted_private_key ≡ some enc
        → decrypt x c₁.master_key enc ≡ ok pem
        → has_prefix (codes pem) (codes "-----BEGIN") ≡ true
        → x.base64_decode "" ≡ some []
        → new_cipher_ok c₂.master_key ≡ true
        → length nonce ≡ 12
        → length nonce₂ ≡ 12
        → pass ≢ ""
        → (h sealed : String) × (file_entry
            ≡ read_again (record (without_keys s interval) {
              encrypted_key = some h;
              public_key = s.public_key;
            }))
          × (import_secrets x lib c₂ keys true pass draw nonce₂ file_entry
              ≡ secrets sealed (elim s.public_key [ none ↦ "" | some pk ↦ pk ]) none)
          × (decrypt x c₂.master_key sealed ≡ ok pem)
    unfolding import_secrets
    imported_key_secrets {enc} {pem} draw nonce₂ named address user mode has_key opens begins empty
          fits size size₂ given =
        let (h, sealed, opened, not_empty) = export_decrypt-export_encrypt nonce pem pass size in
        let direct : gsocket_text s ≡ none =
          ground (arith, eq_iff s.connection_mode "gsocket", mode) in
        let entry = export_row-key direct has_key opens sealed in
        let name' : str_eq s.name "" ≡ false = ground (arith, eq_iff s.name "", named) in
        let address' : str_eq s.ip_address "" ≡ false =
          ground (arith, eq_iff s.ip_address "", address) in
        let user' : str_eq s.ssh_username "" ≡ false =
          ground (arith, eq_iff s.ssh_username "", user) in
        let full : str_eq h "" ≡ false = ground (arith, eq_iff h "", not_empty) in
        let given' : str_eq pass "" ≡ false = ground (arith, eq_iff pass "", given) in
        let (again, read, opens_again) =
          key_secrets-opens c₂ keys pass
            (read_again (record (without_keys s interval) {
              encrypted_key = some h;
              public_key = s.public_key;
            }))
            draw nonce₂ refl full given' opened begins empty fits size₂ in
        (
          h,
          again,
          ap read_again entry,
          rw (entry, import_secrets, name', mode_of-direct s.connection_mode mode, address', user')
              read,
          opens_again,
        )

    pub export_row-gsocket :
        {g h : String}
        → gsocket_text s ≡ some g
        → export_encrypt x lib nonce g pass ≡ some h
        → export_row x lib c₁ pass true nonce s interval
          ≡ record (without_keys s interval) { encrypted_gsocket_secret = some h }
    unfolding export_row add_keys
    export_row-gsocket used sealed = rw (export_row, add_keys, used, sealed) refl

    -- what the import makes of an exported gsocket secret
    pub imported_gsocket_secrets :
        {g : String} (draw : ℕ) (nonce₂ : List ℕ)
        → s.name ≢ ""
        → s.connection_mode ≡ "gsocket"
        → present s.gsocket_secret ≡ some g
        → g ≢ ""
        → length nonce ≡ 12
        → pass ≢ ""
        → (h : String) × (file_entry
            ≡ read_again (record (without_keys s interval) { encrypted_gsocket_secret = some h }))
          × (import_secrets x lib c₂ keys true pass draw nonce₂ file_entry ≡ secrets "" "" (some g))
    unfolding import_secrets gsocket_secrets sealed_text
    imported_gsocket_secrets {g} draw nonce₂ named mode stored some_text size given =
        let (h, sealed, opened, not_empty) = export_decrypt-export_encrypt nonce g pass size in
        let used : gsocket_text s ≡ some g =
          rw ((eq_iff s.connection_mode "gsocket").1 mode) stored in
        let entry = export_row-gsocket used sealed in
        let name' : str_eq s.name "" ≡ false = ground (arith, eq_iff s.name "", named) in
        let full : str_eq h "" ≡ false = ground (arith, eq_iff h "", not_empty) in
        let given' : str_eq pass "" ≡ false = ground (arith, eq_iff pass "", given) in
        let text' : str_eq g "" ≡ false = ground (arith, eq_iff g "", some_text) in
        (
          h,
          ap read_again entry,
          rw
              (
                entry,
                import_secrets,
                name',
                mode_of-gsocket s.connection_mode mode,
                gsocket_secrets,
                sealed_text,
                full,
                given',
                opened,
                text',
              )
              refl,
        )
