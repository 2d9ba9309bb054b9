-- ===== src/Api/Callsigns.antt =====
-- Which callsigns the API accepts, and what becomes of them in AX.25 headers.
use rfmpd.Base.{
  All, Bool-cases, Bytes, Option, [], arith, inl, inr, leb, length, none, refl, some, subst, sym,
  true, ℕ, ◌<◌, ◌∙◌, ◌∷◌, ◌≡◌, ◌≤◌,
}
use rfmpd.Base.Int.{ℤ, pos, negsuc}
use rfmpd.Text.{to_upper, trim_space}
use rfmpd.Ax25.Address.{IsCallsignByte}
use rfmpd.Ax25.Names.{IsName, IsNameByte}
use rfmpd.Direwolf.{DirewolfClient, send_frame, written}
use rfmpd.Direwolf.Delivery.{IsStation, send_frame-written}
use rfmpd.Daemon.{set_callsign}
use rfmpd.Api.{Server, post}
use rfmpd.Api.Requests.{is_callsign_byte, is_callsign_name, all_bytes}
use rfmpd.Api.Settings.{handle_callsign, post_callsign, store_callsign}

is_callsign_byte-IsCallsignByte :
    (c : ℕ) → is_callsign_byte c ≡ true → IsNameByte c × IsCallsignByte c
is_callsign_byte-IsCallsignByte c h = ground arith

callsign-All :
    (cs : Bytes) → all_bytes is_callsign_byte cs ≡ true → IsName cs × All IsCallsignByte cs
unfolding all_bytes
callsign-All [] h = (tt, tt)
callsign-All (c ∷ cs) h = elim (Bool-cases (is_callsign_byte c)) [
  | inl e ↦
      let p = is_callsign_byte-IsCallsignByte c e in
      let r = callsign-All cs (ground arith) in ((p.0, r.0), (p.1, r.1))
  | inr e ↦ absurd (ground arith)
]

-- What `callsignRegex` accepts fits an AX.25 header.
pub callsign_fits :
    (cs : Bytes) → is_callsign_name cs ≡ true → IsName cs × All IsCallsignByte cs × (length cs ≤ 6)
unfolding is_callsign_name
callsign_fits cs h =
    let a : all_bytes is_callsign_byte cs ≡ true = ground arith in
    let r = callsign-All cs a in (r.0, r.1, ground arith)

pub to_upper_upper : (cs : Bytes) → IsName cs → to_upper cs ≡ cs
unfolding to_upper
to_upper_upper [] h = refl
to_upper_upper (c ∷ cs) h = ground (arith, to_upper_upper cs h.1)

to_upper-IsStation :
    (cs : Bytes) (n : ℕ) (c : DirewolfClient)
    → is_callsign_name cs ≡ true
    → n < 16
    → c.callsign ≡ to_upper cs
    → c.ssid ≡ pos n
    → IsStation c n
to_upper-IsStation cs n c h m e f =
    let p = callsign_fits cs h in
    let g : c.callsign ≡ cs = e ∙ to_upper_upper cs p.0 in
    record {
      name = subst IsName (sym g) p.0;
      bytes = subst (All IsCallsignByte) (sym g) p.1;
      short = rw g p.2;
      ssid_is = f;
      ssid_lt = m;
    }

module _ {Float : Type 0} where
  post_callsign-IsStation :
      (cs : Bytes) (ssid : ℤ) (s : Server Float)
      → (post_callsign cs ssid s).1.code ≡ 200
      → (n : ℕ) × IsStation (post_callsign cs ssid s).0.daemon.direwolf n
  unfolding post_callsign store_callsign set_callsign
  post_callsign-IsStation cs (negsuc n) s h =
      absurd
        (elim (Bool-cases (is_callsign_name cs)) [ inl e ↦ ground arith | inr e ↦ ground arith ])
  post_callsign-IsStation cs (pos n) s h = elim (Bool-cases (is_callsign_name cs)) [
    | inl e ↦ elim (Bool-cases (leb n 15)) [
      | inl l ↦ (n, rw (e, l) (to_upper-IsStation cs n _ e (ground arith) refl refl))
      | inr l ↦ absurd (ground arith)
    ]
    | inr e ↦ absurd (ground arith)
  ]

  handle_callsign-IsStation :
      (body : Option (Bytes × ℤ)) (s : Server Float)
      → (handle_callsign post body s).1.code ≡ 200
      → (n : ℕ) × IsStation (handle_callsign post body s).0.daemon.direwolf n
  unfolding handle_callsign
  handle_callsign-IsStation none s h = absurd (omega arith)
  handle_callsign-IsStation (some (cs, ssid)) s h =
      post_callsign-IsStation (to_upper (trim_space cs)) ssid s h

  -- Once `POST /config/callsign` is accepted, every frame that the node sends on a connection is
  -- written: the callsign and the SSID are never refused by AX.25.
  pub handle_callsign-send_frame :
      (body : Option (Bytes × ℤ)) (s : Server Float) (info : Bytes)
      → (handle_callsign post body s).1.code ≡ 200
      → (handle_callsign post body s).0.daemon.direwolf.conn ≡ true
      → (bs : Bytes) × (send_frame (handle_callsign post body s).0.daemon.direwolf info
          ≡ written bs)
  handle_callsign-send_frame body s info h k =
      let (n, v) = handle_callsign-IsStation body s h in
      (_, send_frame-written (handle_callsign post body s).0.daemon.direwolf n v info k)
