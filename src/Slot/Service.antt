-- ===== src/Slot/Service.antt =====
-- `Process` on the CA_PMT of a service: the service is started, stopped, or only asked about.
use vdr_plugin_dvbapi.Prelude.{
  ℕ, ◌<◌, ◌≡◌, refl, ap, ◌∙◌, Bool, true, false, ◌&&◌, Option, some, List, [], ◌∷◌, ◌++◌, ◌==◌,
  length, arith, if◌then◌else◌, All,
}
use vdr_plugin_dvbapi.Slot.{
  Action, put_frame, sid_request, Commands, ca_info, pmt_reply, process, tagged, decide, parity,
  scan, is_query, is_stop, is_start,
}
use vdr_plugin_dvbapi.Slot.Program.{
  Info, Stream, IsShort, encode, commands, scan-encode, encode_long, encode_sid, encode_lm,
}
use vdr_plugin_dvbapi.Slot.Answer.{tpdu, process-tpdu}

no_reply : (b : Bool) (x y : List Action) → (if b && false then x else []) ++ y ≡ y
no_reply true x y = refl
no_reply false x y = refl

module _ (do_reply has_decsa : Bool) (lm sid version : ℕ) (info : Option Info)
    (ss : List Stream) where
  abbrev capmt : List ℕ
  capmt = encode lm sid version info ss

  tagged-encode :
      (tcid cid : ℕ)
      → tagged do_reply has_decsa tcid cid 0x9F8032 capmt ≡ decide do_reply has_decsa tcid cid capmt
  unfolding tagged
  tagged-encode tcid cid = ground (arith, encode_long lm sid version info ss)

  module _ (tcid cid : ℕ) (c : Commands) (found : scan capmt ≡ c) where
    decide_start :
        c.ci_cmd ≡ some 0x01
        → decide do_reply has_decsa tcid cid capmt
          ≡ (if do_reply && lm == 0x03 then put_frame (pmt_reply tcid cid sid) ∷ [] else [])
            ++ (parity do_reply has_decsa sid false
                ++ sid_request sid lm (if c.has_ca then capmt else []) ∷ [])
    unfolding decide is_query is_stop is_start
    decide_start named =
        rw
          (
            decide,
            found,
            named,
            encode_sid lm sid version info ss,
            encode_lm lm sid version info ss,
          )
          refl

    decide_stop :
        c.ci_cmd ≡ some 0x04
        → decide do_reply has_decsa tcid cid capmt
          ≡ sid_request sid lm [] ∷ parity do_reply has_decsa sid true
    unfolding decide is_query is_stop is_start
    decide_stop named =
        rw
          (
            decide,
            found,
            named,
            encode_sid lm sid version info ss,
            encode_lm lm sid version info ss,
          )
          (no_reply do_reply _ _)

module _ (do_reply has_decsa updated : Bool) (slot tcid cid lm sid version : ℕ) (info : Option Info)
    (ss : List Stream) (short : IsShort info) (shorts : All (λ s. IsShort s.info) ss) where
  abbrev pmt : List ℕ
  pmt = encode lm sid version info ss

  abbrev change : List Action
  change = if updated then put_frame (ca_info tcid 0x01) ∷ [] else []

  -- A CA_PMT of fewer than 65,525 bytes whose last command is 1 (descramble), with each info below
  -- 4096 bytes: Process answers it if replies are on and it is an update, allows parity changes for
  -- the service again, and requests the service, with the CA_PMT where it has a descriptor.
  pub process_start :
      length pmt < 65525
      → (commands info ss).ci_cmd ≡ some 0x01
      → process do_reply has_decsa updated (tpdu slot tcid cid 0x9F8032 pmt)
        ≡ some (
            change
            ++ ((if do_reply && lm == 0x03 then put_frame (pmt_reply tcid cid sid) ∷ [] else [])
                ++ (parity do_reply has_decsa sid false
                    ++ sid_request sid lm (if (commands info ss).has_ca then pmt else []) ∷ [])))
  process_start h named =
      process-tpdu do_reply has_decsa updated slot tcid cid 0x9F8032 pmt h
      ∙ ap (λ acts. some (change ++ acts))
          (tagged-encode do_reply has_decsa lm sid version info ss tcid cid
            ∙ decide_start do_reply has_decsa lm sid version info ss tcid cid (commands info ss)
                (scan-encode lm sid version info ss short shorts) named)

  -- A CA_PMT of fewer than 65,525 bytes whose last command is 4 (stop), with each info below 4096
  -- bytes: Process withdraws the request for the service and then stops its descrambling, and
  -- answers nothing.
  pub process_stop :
      length pmt < 65525
      → (commands info ss).ci_cmd ≡ some 0x04
      → process do_reply has_decsa updated (tpdu slot tcid cid 0x9F8032 pmt)
        ≡ some (change ++ (sid_request sid lm [] ∷ parity do_reply has_decsa sid true))
  process_stop h named =
      process-tpdu do_reply has_decsa updated slot tcid cid 0x9F8032 pmt h
      ∙ ap (λ acts. some (change ++ acts))
          (tagged-encode do_reply has_decsa lm sid version info ss tcid cid
            ∙ decide_stop do_reply has_decsa lm sid version info ss tcid cid (commands info ss)
                (scan-encode lm sid version info ss short shorts) named)
