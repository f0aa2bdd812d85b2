-- ===== src/Chat/Scripts.antt =====
-- What the requests of a script do to the plugin of NWNX_Chat/NWNXChat.cpp, and which messages it
-- drops.
use mathlib.Core.Path.{subst}
use nwnx2_windows.Prelude.{
  ℕ, ◌<◌, ◌≡◌, refl, sym, ap, ◌∙◌, Bool, true, false, Option, none, List, [], ◌∷◌, ◌&&◌, ◌||◌, not,
  done, Returns, Returns-if, arith, ◌==◌, if◌then◌else◌, length, Text, codes, pos, Bool-cases,
  Option-cases, inl, inr, starts_with, atoi, split_last, signed32,
}
use nwnx2_windows.Chat.{
  NwnxChat, Sent, scan_parameters, copy_out, equals_one, script_request, finish, send, send_parsed,
  nwnx_send_message, on_request, perform_all, server_id, delimiter, le_signed,
}

-- Two prefixes of which no text has both.
abbrev clash : Text → Text → Bool
clash [] q = false
clash (c ∷ p) [] = false
clash (c ∷ p) (d ∷ q) = not (c == d) || clash p q

starts_with-clash :
    (p q t : Text) → clash p q ≡ true → starts_with p t ≡ true → starts_with q t ≡ false
starts_with-clash [] q t h k = cc
starts_with-clash (c ∷ p) [] t h k = cc
starts_with-clash (c ∷ p) (d ∷ q) [] h k = cc
starts_with-clash (c ∷ p) (d ∷ q) (e ∷ t) h k = ground (arith, starts_with-clash p q t)

-- The request asks for the message to be dropped.
abbrev pub suppresses : Text × Text → Bool
suppresses (request, parameters) =
    starts_with (codes "SUPRESS") request && equals_one (atoi parameters)

abbrev pub any_suppresses : List (Text × Text) → Bool
any_suppresses [] = false
any_suppresses (r ∷ rest) = suppresses r || any_suppresses rest

-- While a script runs: what a request leaves alone, and that the mark for dropping is only set.
pub record Continues (chat : NwnxChat) (mark : Bool) (chat' : NwnxChat) : Type 0 where
  pub running : chat'.script_run ≡ true
  pub marked : chat'.supress_msg ≡ (chat.supress_msg || mark)
  pub text : chat'.last_msg ≡ chat.last_msg
  pub name : chat'.chat_script ≡ chat.chat_script

-- What a script may ask for fits.
abbrev pub Ready : NwnxChat → Type 0
Ready chat =
    (chat.script_run ≡ true) × (length chat.last_msg < 1024) × (length chat.chat_script < 17)

copy_out-done : (n : ℕ) (t : Text) → length t < n → copy_out n t ≡ done t
unfolding copy_out
copy_out-done n t h = ground arith

-- A request that asks for something else leaves the mark.
suppresses-clash :
    (p : Text) (request parameters : Text)
    → clash p (codes "SUPRESS") ≡ true
    → starts_with p request ≡ true
    → suppresses (request, parameters) ≡ false
suppresses-clash p request parameters h k =
    rw (starts_with-clash p (codes "SUPRESS") request h k) refl

-- A state that differs only in what the script may change without a mark.
stays :
    (chat chat' : NwnxChat) (mark : Bool)
    → mark ≡ false
    → chat'.script_run ≡ true
    → chat'.supress_msg ≡ chat.supress_msg
    → chat'.last_msg ≡ chat.last_msg
    → chat'.chat_script ≡ chat.chat_script
    → Continues chat mark chat'
stays chat chat' mark h run same text name = ground arith

-- One step behind another.
trans :
    (a b c : NwnxChat) (mark mark' : Bool)
    → Continues a mark b
    → Continues b mark' c
    → Continues a (mark || mark') c
trans a b c mark mark' p q = record {
  running = q.running;
  marked = ground (arith, p.marked, q.marked);
  text = q.text ∙ p.text;
  name = q.name ∙ p.name;
}

Continues-Ready : (a b : NwnxChat) (mark : Bool) → Ready a → Continues a mark b → Ready b
Continues-Ready a b mark (run, fits, short) c = (
  c.running,
  subst (λ t. length t < 1024) (sym c.text) fits,
  subst (λ t. length t < 17) (sym c.name) short,
)

script_request-Continues :
    (chat : NwnxChat) (request parameters : Text)
    → Ready chat
    → Returns
        (script_request chat request parameters)
        (λ p. Continues chat (suppresses (request, parameters)) p.0)
unfolding script_request
script_request-Continues chat request parameters (run, fits, short) =
    elim (Bool-cases (starts_with (codes "TEXT") request)) [
      | inl text ↦ rw text (
          rw (copy_out-done 1024 chat.last_msg fits) (
            _,
            refl,
            stays chat chat _ (suppresses-clash (codes "TEXT") request parameters refl text) run
                refl refl refl,
          ))
      | inr no_text ↦ rw no_text (elim (Bool-cases (starts_with (codes "LOG") request)) [
        | inl log ↦ rw log (
          _,
          refl,
          stays chat _ _ (suppresses-clash (codes "LOG") request parameters refl log) run refl refl
              refl,
        )
        | inr no_log ↦ rw no_log (elim (Bool-cases (suppresses (request, parameters))) [
          | inl marks ↦
              rw marks
                (_, refl, record { running = run; marked = ground arith; text = refl; name = refl })
          | inr leaves ↦
              rw leaves
                (_, refl, record { running = run; marked = ground arith; text = refl; name = refl })
        ])
      ])
    ]

finish-script_request :
    (chat : NwnxChat) (request parameters : Text)
    → chat.script_run ≡ true
    → finish chat request parameters ≡ script_request chat request parameters
unfolding finish
finish-script_request chat request parameters run =
    ap (λ b. if b then script_request chat request parameters else done (chat, none)) run

-- A request that sets a variable of the plugin first.
finish-Continues :
    (chat chat' : NwnxChat) (request parameters : Text)
    → Ready chat
    → Continues chat false chat'
    → Returns
        (finish chat' request parameters)
        (λ p. Continues chat (suppresses (request, parameters)) p.0)
finish-Continues chat chat' request parameters ready c =
    let (p, e, c') =
      script_request-Continues chat' request parameters
        (Continues-Ready chat chat' false ready c) in
    (
      p,
      finish-script_request chat' request parameters c.running ∙ e,
      trans chat chat' p.0 false _ c c',
    )

either-Continues :
    (chat : NwnxChat) (mark b : Bool) (p q : NwnxChat × Text)
    → Continues chat mark p.0
    → Continues chat mark q.0
    → Continues chat mark (if b then p else q).0
either-Continues chat mark true p q h k = h
either-Continues chat mark false p q h k = k

module _ (get_id : ℕ → ℕ) (deliver : Sent → ℕ) where
  send-Continues :
      (chat : NwnxChat) (m : Sent) (mark : Bool)
      → mark ≡ false
      → chat.script_run ≡ true
      → Continues chat mark (send get_id deliver chat m).0
  unfolding send
  send-Continues chat m mark h run =
      either-Continues chat mark (m.channel == 5 || chat.chat_this) _ _
        (stays chat _ mark h run refl refl refl) (stays chat chat mark h run refl refl refl)

  send_parsed-Continues :
      (chat : NwnxChat) (message : Text) (parsed : ℕ × ℕ × ℕ) (mark : Bool)
      → mark ≡ false
      → chat.script_run ≡ true
      → Continues chat mark (send_parsed get_id deliver chat message parsed).0
  unfolding send_parsed
  send_parsed-Continues chat message (sender, recipient, channel) mark h run =
      either-Continues chat mark
        ((channel == 4 || channel == 20) && le_signed (signed32 recipient) (pos server_id)) _ _
        (stays chat chat mark h run refl refl refl) (send-Continues chat _ mark h run)

  nwnx_send_message-Continues :
      (chat : NwnxChat) (parameters : Text) (mark : Bool)
      → mark ≡ false
      → chat.script_run ≡ true
      → Continues chat mark (nwnx_send_message get_id deliver chat parameters).0
  unfolding nwnx_send_message
  nwnx_send_message-Continues chat parameters mark h run =
      elim (Option-cases (split_last delimiter parameters)) [
        | inl whole ↦ rw (whole, nwnx_send_message) (stays chat chat mark h run refl refl refl)
        | inr ((before, message), cut) ↦ elim (Option-cases (scan_parameters parameters)) [
          | inl unread ↦
              rw (cut, unread, nwnx_send_message) (stays chat chat mark h run refl refl refl)
          | inr (parsed, read) ↦
              rw (cut, read, nwnx_send_message)
                (send_parsed-Continues chat message parsed mark h run)
        ]
      ]

  -- A request of a script is carried out, and marks the message exactly if it asks for that.
  on_request-Continues :
      (chat : NwnxChat) (request parameters : Text)
      → Ready chat
      → Returns
          (on_request get_id deliver chat request parameters)
          (λ p. Continues chat (suppresses (request, parameters)) p.0)
  unfolding on_request
  on_request-Continues chat request parameters ready =
      let run = ready.0 in
      let P =
        λ (p : NwnxChat × Option Text). Continues chat (suppresses (request, parameters)) p.0 in
      let other = λ (p : Text). suppresses-clash p request parameters in
      let set = λ (chat' : NwnxChat). finish-Continues chat chat' request parameters ready in
      Returns-if P (starts_with (codes "GETID") request) _ _
        (λ is. (_, refl, stays chat chat _ (other (codes "GETID") refl is) run refl refl refl))
        λ _.
          Returns-if P (starts_with (codes "LOGNPC") request) _ _
            (λ _.
              set (record chat { process_npc = atoi parameters })
                (stays chat _ false refl run refl refl refl))
            λ _.
              Returns-if P (starts_with (codes "IGNORESILENT") request) _ _
                (λ _.
                  set (record chat { ignore_silent = atoi parameters })
                    (stays chat _ false refl run refl refl refl))
                λ _.
                  Returns-if P (starts_with (codes "SPEAK") request) _ _
                    (λ is. (
                      _,
                      refl,
                      nwnx_send_message-Continues chat parameters _ (other (codes "SPEAK") refl is)
                          run,
                    ))
                    λ _.
                      Returns-if P (starts_with (codes "GETCHATSCRIPT") request) _ _
                        (λ is. rw (copy_out-done 17 chat.chat_script ready.2) (
                          _,
                          refl,
                          stays chat chat _ (other (codes "GETCHATSCRIPT") refl is) run refl refl
                              refl,
                        ))
                        λ _. set chat (stays chat chat false refl run refl refl refl)

  pub perform_all-Continues :
      (chat : NwnxChat) (requests : List (Text × Text))
      → Ready chat
      → Returns
          (perform_all get_id deliver chat requests)
          (Continues chat (any_suppresses requests))
  unfolding perform_all
  perform_all-Continues chat [] ready =
      (chat, refl, stays chat chat false refl ready.0 refl refl refl)
  perform_all-Continues chat ((request, parameters) ∷ rest) ready =
      let (p, first, c) = on_request-Continues chat request parameters ready in
      let ready' = Continues-Ready chat p.0 _ ready c in
      let (chat', others, c') = perform_all-Continues p.0 rest ready' in
      rw first (chat', others, trans chat p.0 chat' _ _ c c')
