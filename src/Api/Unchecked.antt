-- ===== src/Api/Unchecked.antt =====
-- `PUT /config` saves an SSID that AX.25 refuses.
use rfmpd.Base.{Bytes, arith, false, is_empty, leb, refl, some, true, ℕ, ◌++◌, ◌<◌, ◌∙◌, ◌∷◌, ◌≡◌}
use rfmpd.Base.Int.{pos}
use rfmpd.Text.{itoa_ℕ, itoa, int_max}
use rfmpd.Text.Decimal.{atoi-itoa}
use rfmpd.Ax25.{err, ssid_out_of_range, parse_address, create_ui_frame}
use rfmpd.Ax25.Names.{IsName, cut-append}
use rfmpd.Direwolf.{DirewolfClient, full_callsign, send_frame, bad_address, connect, new_client}
use rfmpd.Storage.{Database}
use rfmpd.Config.{Config}
use rfmpd.Api.{Server, new_daemon}
use rfmpd.Api.Settings.{save_path, merge_config, save_config, put_config}

full_callsign-pos :
    (cs : Bytes) (n : ℕ) → 0 < n → full_callsign cs (pos n) ≡ cs ++ (b'-' ∷ itoa_ℕ n)
unfolding full_callsign itoa
full_callsign-pos cs n h = ground arith

parse_address_ssid :
    (cs : Bytes) (n : ℕ)
    → IsName cs
    → 15 < n
    → n < int_max
    → parse_address (full_callsign cs (pos n)) ≡ err ssid_out_of_range
unfolding parse_address
parse_address_ssid cs n h lo hi =
    let e : leb n 15 ≡ false = ground arith in
    rw (full_callsign-pos cs n (omega arith), cut-append cs (itoa_ℕ n) h, atoi-itoa n hi, e)

send_frame_ssid :
    (c : DirewolfClient) (n : ℕ) (info : Bytes)
    → IsName c.callsign
    → c.ssid ≡ pos n
    → 15 < n
    → n < int_max
    → c.conn ≡ true
    → send_frame c info ≡ bad_address ssid_out_of_range
unfolding send_frame create_ui_frame
send_frame_ssid c n info h e lo hi k = rw (k, e, parse_address_ssid c.callsign n h lo hi)

module _ {Float : Type 0} where
  save_config-written :
      (c : Config Float) (s : Server Float)
      → is_empty (save_path s) ≡ false
      → ((save_config c s).0.written ≡ some (record c { loaded_from = save_path s }))
        × ((save_config c s).1.code ≡ 200)
  unfolding save_config
  save_config-written c s h = (rw h, rw h)

  put_config-saved :
      (incoming : Config Float) (s : Server Float)
      → is_empty (merge_config incoming s.config).node.callsign ≡ false
      → put_config incoming s ≡ save_config (merge_config incoming s.config) s
  unfolding put_config
  put_config-saved incoming s h = rw h

  merge_config-ssid :
      (incoming existing : Config Float)
      → (merge_config incoming existing).node.ssid ≡ incoming.node.ssid
  unfolding merge_config
  merge_config-ssid incoming existing = refl

  -- A configuration with an SSID above 15 is accepted and written by `PUT /config`, and the
  -- daemon that starts from it cannot send anything: every frame is refused for its SSID.
  pub put_config_unchecked :
      (incoming : Config Float) (s : Server Float) (db : Database) (n : ℕ) (info : Bytes)
      → is_empty (save_path s) ≡ false
      → is_empty (merge_config incoming s.config).node.callsign ≡ false
      → IsName (merge_config incoming s.config).node.callsign
      → incoming.node.ssid ≡ pos n
      → 15 < n
      → n < int_max
      → (c : Config Float) × ((put_config incoming s).0.written ≡ some c)
        × ((put_config incoming s).1.code ≡ 200)
        × (send_frame (connect (new_daemon c db).direwolf) info ≡ bad_address ssid_out_of_range)
  unfolding connect new_daemon new_client
  put_config_unchecked incoming s db n info p q name e lo hi =
      let merged = merge_config incoming s.config in
      let w = save_config-written merged s p in
      let r = put_config-saved incoming s q in
      (
        record merged { loaded_from = save_path s },
        rw r w.0,
        rw r w.1,
        send_frame_ssid _ n info name (merge_config-ssid incoming s.config ∙ e) lo hi refl,
      )
