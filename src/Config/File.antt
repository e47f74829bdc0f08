-- ===== src/Config/File.antt =====
-- Writing the configuration file and reading it.
use remote_monitoring_tool.Prelude.{
  ◌≡◌, refl, ap, ◌∙◌, true, List, [], ◌∷◌, map, Bytes, All, Bool-cases, inl, inr,
}
use remote_monitoring_tool.Result.{Result, ok, err, ◌>>=◌}
use remote_monitoring_tool.Disk.{Disk, store, store_same}
use remote_monitoring_tool.Config.{
  ConfigEntry, Json, convert_after_read, convert_before_write, write_config, read_config,
  read_entries, write_entries,
}
use remote_monitoring_tool.Config.Units.{IsWhole, map-convert}

-- All names can be printed as JSON.
abbrev pub AllValid : Json → List ConfigEntry → Type 0
AllValid json = All (λ c. json.valid_name c.process_name ≡ true)

AllValid-convert :
    (json : Json) (cs : List ConfigEntry)
    → AllValid json cs
    → AllValid json (map convert_before_write cs)
AllValid-convert json [] h = tt
AllValid-convert json (c ∷ cs) (hc, h) =
    (unfold convert_before_write in hc, AllValid-convert json cs h)

-- The call of write_config succeeds, and the next call of read_config gets each entry as it is
-- after both conversions.
pub read_config-write_config :
    (json : Json) (path : Bytes) (entries before : List ConfigEntry) (d : Disk)
    → d.writable path ≡ true
    → AllValid json entries
    → ((write_config json path entries d).0 ≡ ok 0)
      × (read_config json path before (write_config json path entries d).1
          ≡ ok (0, map convert_after_read (map convert_before_write entries)))
unfolding read_config write_config
read_config-write_config json path entries before d w v =
    let (text, printed) =
      json.dump_valid (map convert_before_write entries) (AllValid-convert json entries v) in
    rw (w, printed)
      (
        refl,
        ap (λ o. read_entries json o before) (store_same d path text)
            ∙ ap (λ r. r >>= λ parsed. ok (0, map convert_after_read parsed))
                (json.parse-dump (map convert_before_write entries) text printed),
      )

-- Let all names be valid UTF-8 and the file be writable. Then a configuration whose thresholds are
-- whole in the file's units is written without error, and the next start reads exactly it.
pub read_config-IsWhole :
    (json : Json) (path : Bytes) (entries before : List ConfigEntry) (d : Disk)
    → d.writable path ≡ true
    → AllValid json entries
    → All IsWhole entries
    → ((write_config json path entries d).0 ≡ ok 0)
      × (read_config json path before (write_config json path entries d).1 ≡ ok (0, entries))
read_config-IsWhole json path entries before d w v h =
    let (code, back) = read_config-write_config json path entries before d w v in
    (code, back ∙ ap (λ es. ok (0, es)) (map-convert entries h))

write_entries-writable :
    (r : Result Bytes) (path : Bytes) (d : Disk) (p : Bytes)
    → (write_entries r path d).1.writable p ≡ d.writable p
unfolding write_entries store
write_entries-writable (ok text) path d p = refl
write_entries-writable (err e) path d p = refl

-- Writing the file leaves what can be written.
pub write_config-writable :
    (json : Json) (path : Bytes) (entries : List ConfigEntry) (d : Disk) (p : Bytes)
    → (write_config json path entries d).1.writable p ≡ d.writable p
unfolding write_config
write_config-writable json path entries d p = elim (Bool-cases (d.writable path)) [
  | inl e ↦ rw e (write_entries-writable _ path d p)
  | inr e ↦ rw e refl
]
