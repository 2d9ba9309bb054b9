-- ===== src/Display/Saving.antt =====
-- The settings of the pager, from `GET /config` to what `PUT /config` makes of them.
use rfmpd.Base.{All, Bytes, [], ap, arith, false, is_empty, refl, sym, true, ℕ, ◌<◌, ◌∙◌, ◌∷◌, ◌≡◌}
use rfmpd.Base.Int.{ℤ, pos}
use rfmpd.Text.{text_eq, to_upper, trim_space, itoa, atoi_value, int_max}
use rfmpd.Text.Decimal.{atoi_value-itoa}
use rfmpd.Text.Trim.{IsVisible, trim_space_visible}
use rfmpd.Config.{Config}
use rfmpd.Api.Requests.{is_callsign_byte, is_callsign_name, all_bytes}
use rfmpd.Api.Callsigns.{to_upper_upper, callsign_fits}
use rfmpd.Api.Settings.{merge_config, text_or, positive_or}
use rfmpd.Display.{ConfigData, setting_fields}
use rfmpd.Display.Screens.{save_field, save_fields, empty_config}

-- What JSON carries between `Config` and `ConfigData`, one field for each of the same name.
pub record Carries {Float : Type 0} (c : Config Float) (d : ConfigData) : Type 0 where
  pub callsign_is : c.node.callsign ≡ d.callsign
  pub ssid_is : c.node.ssid ≡ d.ssid
  pub host_is : c.network.direwolf_host ≡ d.direwolf_host
  pub port_is : c.network.direwolf_port ≡ d.direwolf_port
  pub offline_is : c.network.offline_mode ≡ d.offline_mode
  pub interval_is : c.sync_interval ≡ d.sync_interval
  pub level_is : c.logging.level ≡ d.level

-- Numbers that `strconv.Itoa` prints and `Atoi` reads back.
abbrev pub IsNumber : ℤ → Type 0
IsNumber z = (n : ℕ) × (n < int_max) × (z ≡ pos n)

atoi_value-itoa_int : (z : ℤ) → IsNumber z → atoi_value (itoa z) ≡ z
unfolding itoa
atoi_value-itoa_int z (n, h, e) = rw (e, atoi_value-itoa n h)

-- the settings as they were entered, saved without a change
save_fields_unchanged :
    (d : ConfigData)
    → IsNumber d.ssid
    → IsNumber d.direwolf_port
    → IsNumber d.sync_interval
    → save_fields (setting_fields d) empty_config ≡ record d { offline_mode = false }
unfolding save_fields save_field setting_fields text_eq
save_fields_unchanged d h k l = rw (
  atoi_value-itoa_int d.ssid h,
  atoi_value-itoa_int d.direwolf_port k,
  atoi_value-itoa_int d.sync_interval l,
)

callsign-IsVisible : (cs : Bytes) → all_bytes is_callsign_byte cs ≡ true → All IsVisible cs
unfolding all_bytes
callsign-IsVisible [] h = tt
callsign-IsVisible (c ∷ cs) h = (ground arith, callsign-IsVisible cs (ground arith))

trim_callsign : (cs : Bytes) → is_callsign_name cs ≡ true → to_upper (trim_space cs) ≡ cs
unfolding is_callsign_name
trim_callsign cs h =
    rw (trim_space_visible cs (callsign-IsVisible cs (ground arith)))
      (to_upper_upper cs (callsign_fits cs h).0)

text_or_same : (s : Bytes) → text_or s s ≡ s
text_or_same [] = refl
text_or_same (c ∷ cs) = refl

positive_or_same : (z : ℤ) → positive_or z z ≡ z
positive_or_same z = ground arith

callsign_cons : (cs : Bytes) → is_callsign_name cs ≡ true → is_empty cs ≡ false
unfolding is_callsign_name
callsign_cons cs h = ground arith

-- When the settings are opened and saved without a change, what `PUT /config` makes of the request
-- is the node's configuration as it was, but with the offline mode turned off. The callsign is one
-- that the API accepts, and the SSID, the port and the interval are not negative.
pub merge_config-save_fields :
    {Float : Type 0} (existing incoming : Config Float) (d : ConfigData)
    → is_callsign_name existing.node.callsign ≡ true
    → IsNumber d.ssid
    → IsNumber d.direwolf_port
    → IsNumber d.sync_interval
    → Carries existing d
    → Carries incoming (save_fields (setting_fields d) empty_config)
    → merge_config incoming existing
      ≡ record existing { network = record (existing.network) { offline_mode = false } }
unfolding merge_config
merge_config-save_fields existing incoming d name h k l a b =
    let u = save_fields_unchanged d h k l in
    let e1 : incoming.node.callsign ≡ existing.node.callsign =
      b.callsign_is ∙ ap (λ x. x.callsign) u ∙ sym a.callsign_is in
    let e2 : incoming.node.ssid ≡ existing.node.ssid =
      b.ssid_is ∙ ap (λ x. x.ssid) u ∙ sym a.ssid_is in
    let e3 : incoming.network.direwolf_host ≡ existing.network.direwolf_host =
      b.host_is ∙ ap (λ x. x.direwolf_host) u ∙ sym a.host_is in
    let e4 : incoming.network.direwolf_port ≡ existing.network.direwolf_port =
      b.port_is ∙ ap (λ x. x.direwolf_port) u ∙ sym a.port_is in
    let e5 : incoming.network.offline_mode ≡ false = b.offline_is ∙ ap (λ x. x.offline_mode) u in
    let e6 : incoming.sync_interval ≡ existing.sync_interval =
      b.interval_is ∙ ap (λ x. x.sync_interval) u ∙ sym a.interval_is in
    let e7 : incoming.logging.level ≡ existing.logging.level =
      b.level_is ∙ ap (λ x. x.level) u ∙ sym a.level_is in
    rw (
      e1,
      e2,
      e3,
      e4,
      e5,
      e6,
      e7,
      callsign_cons existing.node.callsign name,
      trim_callsign existing.node.callsign name,
      text_or_same existing.network.direwolf_host,
      positive_or_same existing.network.direwolf_port,
      positive_or_same existing.sync_interval,
      text_or_same existing.logging.level,
    )
