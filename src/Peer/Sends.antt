-- ===== src/Peer/Sends.antt =====
-- App messages from one side of packages/pair-sdk/src/peer.ts to the other.
use Prim.Native.String.{String}
use mathlib.Core.Path.{◌≡◌, refl, subst}
use mathlib.Core.Bool.{Bool, true, false}
use mathlib.Core.Option.{none, some}
use mathlib.Core.Logic.{◌⊎◌, inl, inr}
use native.Mathlib.Omega.{arith}
use text.Mathlib.Text.{◌==◌}
use text.Mathlib.TextEquality.{eq_iff}
use openclawapp.Base.{
  if◌then◌else◌, Bool-cases, Option-cases, contains, trim, trim_idem, is_empty, lookup,
}
use openclawapp.Base.Values.{
  Value, Num, Result, number_of, truthy, undefined, null, bool, num, str, arr, obj, finite, Fields,
  Runtime, ok, trimmed_text, field, end,
}
use openclawapp.Chat.{EntityType, desktop, mobile}
use openclawapp.Chat.Codec.{is_text}
use openclawapp.Peer.{
  Options, Channel, Capabilities, entity_text, is_app_type, starts_with, trusted_remote_role,
  is_ready, hello_type, capabilities_type,
}
use openclawapp.Peer.Messages.{
  delivered, object_value, read_from, supports_remote_message, send_app_message, react,
  react_object, react_app,
}
use openclawapp.Peer.Signals.{Browser}
use openclawapp.Peer.Secrecy.{HasHello}
use openclawapp.Peer.Worlds.{World, Reach}
use openclawapp.Peer.Runs.{Reach-HasHello}

-- The peer has told no capabilities, or it lists the type among them.
abbrev pub IsAdvertised : Channel → String → Type 0
IsAdvertised c type =
    (c.remote_capabilities ≡ none)
    ⊎ ((k : Capabilities) × (c.remote_capabilities ≡ some k)
        × (contains (trim type) k.supported_messages ≡ true))

object_value_idem : (v : Value) → object_value (object_value v) ≡ object_value v
object_value_idem undefined = refl
object_value_idem null = refl
object_value_idem (bool b) = refl
object_value_idem (num n) = refl
object_value_idem (str s) = refl
object_value_idem (arr vs) = refl
object_value_idem (obj fs) = refl

read_from-entity_text : (role other : EntityType) → read_from (str (entity_text role)) other ≡ role
unfolding is_text
read_from-entity_text desktop other = refl
read_from-entity_text mobile other = refl

not_reserved :
    (type reserved : String)
    → is_app_type reserved ≡ false
    → is_app_type type ≡ true
    → (type == reserved) ≡ false
not_reserved type reserved h k = elim (Bool-cases (type == reserved)) [
  | inl e ↦ absurd (cc ((eq_iff type reserved).0 e))
  | inr e ↦ e
]

hello_reserved : is_app_type hello_type ≡ false
unfolding is_app_type starts_with trim
hello_reserved = refl

capabilities_reserved : is_app_type capabilities_type ≡ false
unfolding is_app_type starts_with trim
capabilities_reserved = refl

module _ (rt : Runtime) where
  supports-IsAdvertised :
      (c : Channel) (type : String) → supports_remote_message rt c type ≡ true → IsAdvertised c type
  unfolding supports_remote_message
  supports-IsAdvertised c type h = elim (Option-cases c.remote_capabilities) [
    | inl e ↦ inl e
    | inr (k, e) ↦ inr (k, e, listed k e)
  ]
    where
      listed :
          (k : Capabilities)
          → c.remote_capabilities ≡ some k
          → contains (trim type) k.supported_messages ≡ true
      listed k e = elim (Bool-cases (is_empty (trim type))) [
        | inl f ↦ absurd (cc (rw f at h))
        | inr f ↦ rw (f, e) at h
      ]

  trimmed_text-str : (s : String) → trimmed_text rt (str s) ≡ trim s
  unfolding trimmed_text
  trimmed_text-str String.[] = refl
  trimmed_text-str (String.◌∷◌ c s) = refl

  envelope : Options → String → Value → Fields
  envelope options type payload = field "type" (str (trim type)) (
      field "payload" (object_value payload) (
        field "ts" (num (finite false (rt.now 0) 0))
          (field "from" (str (entity_text options.role)) end)))

  ok-inj : {fs gs : Fields} → Path (Result Fields) (ok fs) (ok gs) → fs ≡ gs
  ok-inj h = cc

  time_kept : (n : Num) → number_of rt (if truthy (num n) then num n else num n) ≡ n
  time_kept n = elim (Bool-cases (truthy (num n))) [ inl e ↦ rw e refl | inr e ↦ rw e refl ]

  envelope-react :
      (here there : Options) (d : Channel) (type : String) (payload : Value)
      → is_app_type (trim type) ≡ true
      → d.remote_verified ≡ true
      → react_object rt there d (envelope here type payload)
        ≡ delivered (record {
          type = trim type;
          payload = object_value payload;
          ts = num (finite false (rt.now 0) 0);
          from = here.role;
        })
  unfolding envelope react_object react_app lookup
  envelope-react here there d type payload a v =
      rw
        (
          not_reserved (trim type) hello_type hello_reserved a,
          v,
          not_reserved (trim type) capabilities_type capabilities_reserved a,
          trimmed_text-str (trim type),
          trim_idem type,
          a,
          time_kept (finite false (rt.now 0) 0),
          object_value_idem payload,
          read_from-entity_text here.role (trusted_remote_role there.role),
        )
        refl

  -- A message that one side sends, in any run of it: a signed hello of the trusted peer was
  -- received before, and the peer has told no capabilities or lists the type of the message.
  pub Reach-send :
      (browser : Browser) (verify : String → String → Value → Bool) (options : Options) (w : World)
      (type : String) (payload : Value) (fs : Fields)
      → Reach rt browser verify options w
      → send_app_message rt options w.channel type payload ≡ ok fs
      → HasHello rt verify options w.received × IsAdvertised w.channel (trim type)
  unfolding send_app_message is_ready
  Reach-send browser verify options w type payload fs r h = (
    Reach-HasHello rt browser verify options w r (inl (ground arith)),
    supports-IsAdvertised w.channel (trim type) (ground arith),
  )

  -- A message that one side sends and that arrives with the fields that it was sent with is
  -- delivered by the other, once it has verified the sender: with its trimmed type, its payload or
  -- an empty one for a payload that is no object, its time and the sender's role.
  pub send-react :
      (here there : Options) (c d : Channel) (type : String) (payload : Value) (fs : Fields)
      → send_app_message rt here c type payload ≡ ok fs
      → d.remote_verified ≡ true
      → react rt there d (obj fs)
        ≡ delivered (record {
          type = trim type;
          payload = object_value payload;
          ts = num (finite false (rt.now 0) 0);
          from = here.role;
        })
  unfolding send_app_message react envelope
  send-react here there c d type payload fs h v =
      let a : is_app_type (trim type) ≡ true = ground arith in
      subst
        (λ es.
          react_object rt there d es
          ≡ delivered (record {
            type = trim type;
            payload = object_value payload;
            ts = num (finite false (rt.now 0) 0);
            from = here.role;
          }))
        (let (r, p) : (is_ready c ≡ true) × (supports_remote_message rt c (trim type) ≡ true) =
            (ground arith, ground arith) in
          ok-inj (rw (r, a, p) at h))
        (envelope-react here there d type payload a v)
