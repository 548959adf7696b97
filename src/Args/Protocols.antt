-- ===== src/Args/Protocols.antt =====
-- Which protocols parseDiscoveryInput chooses.
use ipscry.Common.{
  ◌≡◌, refl, inl, inr, Bool, true, false, ◌||◌, Option, none, some, List, [], ◌∷◌, arith, ◌==◌,
  if◌then◌else◌, Bool-cases, Option-cases, length, All, Bytes,
}
use ipscry.Common.Text.{codes, text_eq, text_eq_iff, split}
use ipscry.Common.Trim.{trim_space}
use mathlib.Core.Path.{subst}
use ipscry.Args.{
  one_of, DiscoveryConfig, no_discovery, add_protocol, DiscoveryResult, chosen, unknown_protocol,
  add_protocols, parse_discovery_input,
}

-- The words for each protocol
abbrev pub words_all : List Bytes
words_all = codes "all" ∷ codes "on" ∷ codes "true" ∷ []

abbrev pub words_ssdp : List Bytes
words_ssdp = codes "ssdp" ∷ codes "upnp" ∷ []

abbrev pub words_mdns : List Bytes
words_mdns = codes "mdns" ∷ []

abbrev pub words_llmnr : List Bytes
words_llmnr = codes "llmnr" ∷ []

abbrev pub words_wsd : List Bytes
words_wsd = codes "wsd" ∷ codes "ws-discovery" ∷ codes "wsdiscovery" ∷ []

-- A part is a word of the list, or one for all protocols.
abbrev pub wants : List Bytes → Bytes → Bool
wants words part = one_of words_all part || one_of words part

abbrev pub is_known : Bytes → Bool
is_known part =
    one_of words_all part
    || (one_of words_ssdp part
        || (one_of words_mdns part || (one_of words_llmnr part || one_of words_wsd part)))

abbrev pub wanted : List Bytes → List Bytes → Bool
wanted words [] = false
wanted words (part ∷ parts) = wants words (trim_space part) || wanted words parts

-- The first part that is no word
abbrev pub first_unknown : List Bytes → Option Bytes
first_unknown [] = none
first_unknown (part ∷ parts) =
    if is_known (trim_space part) then first_unknown parts else some (trim_space part)

-- What a part makes of a configuration
abbrev IsAdded : Bytes → DiscoveryConfig → Option DiscoveryConfig → Type 0
IsAdded t cfg none = is_known t ≡ false
IsAdded t cfg (some c) =
    (is_known t ≡ true)
    × (c.enabled ≡ true)
    × (c.ssdp ≡ (cfg.ssdp || wants words_ssdp t))
    × (c.mdns ≡ (cfg.mdns || wants words_mdns t))
    × (c.llmnr ≡ (cfg.llmnr || wants words_llmnr t))
    × (c.wsd ≡ (cfg.wsd || wants words_wsd t))

or_true : (b : Bool) → true ≡ (b || true)
or_true true = refl
or_true false = refl

or_false : (b : Bool) → b ≡ (b || false)
or_false true = refl
or_false false = refl

abbrev Added : DiscoveryConfig → Bytes → Type 0
Added cfg t = IsAdded t cfg (add_protocol t cfg)

words_all-Added : (cfg : DiscoveryConfig) → All (Added cfg) words_all
unfolding add_protocol one_of text_eq
words_all-Added cfg =
    let each : Added cfg (codes "all") =
      (refl, refl, or_true cfg.ssdp, or_true cfg.mdns, or_true cfg.llmnr, or_true cfg.wsd) in
    (each, (each, (each, tt)))

words_ssdp-Added : (cfg : DiscoveryConfig) → All (Added cfg) words_ssdp
unfolding add_protocol one_of text_eq
words_ssdp-Added cfg =
    let each : Added cfg (codes "ssdp") =
      (refl, refl, or_true cfg.ssdp, or_false cfg.mdns, or_false cfg.llmnr, or_false cfg.wsd) in
    (each, (each, tt))

words_mdns-Added : (cfg : DiscoveryConfig) → All (Added cfg) words_mdns
unfolding add_protocol one_of text_eq
words_mdns-Added cfg =
    ((refl, refl, or_false cfg.ssdp, or_true cfg.mdns, or_false cfg.llmnr, or_false cfg.wsd), tt)

words_llmnr-Added : (cfg : DiscoveryConfig) → All (Added cfg) words_llmnr
unfolding add_protocol one_of text_eq
words_llmnr-Added cfg =
    ((refl, refl, or_false cfg.ssdp, or_false cfg.mdns, or_true cfg.llmnr, or_false cfg.wsd), tt)

words_wsd-Added : (cfg : DiscoveryConfig) → All (Added cfg) words_wsd
unfolding add_protocol one_of text_eq
words_wsd-Added cfg =
    let each : Added cfg (codes "wsd") =
      (refl, refl, or_false cfg.ssdp, or_false cfg.mdns, or_false cfg.llmnr, or_true cfg.wsd) in
    (each, (each, (each, tt)))

-- What holds of each word of a list holds of a text that is one of them.
one_of-All :
    (P : Bytes → Type 0) (words : List Bytes) (t : Bytes)
    → All P words
    → one_of words t ≡ true
    → P t
unfolding one_of
one_of-All P [] t all e = ground arith
one_of-All P (w ∷ words) t (h, all) e = elim (Bool-cases (text_eq w t)) [
  | inl f ↦ subst P ((text_eq_iff w t).0 f) h
  | inr f ↦ one_of-All P words t all (ground arith)
]

add_protocol_unknown :
    (t : Bytes) (cfg : DiscoveryConfig) → is_known t ≡ false → add_protocol t cfg ≡ none
unfolding add_protocol one_of
add_protocol_unknown t cfg e = ground arith

add_protocol-IsAdded : (t : Bytes) (cfg : DiscoveryConfig) → IsAdded t cfg (add_protocol t cfg)
add_protocol-IsAdded t cfg = elim (Bool-cases (one_of words_all t)) [
  | inl e ↦ one_of-All (Added cfg) words_all t (words_all-Added cfg) e
  | inr a ↦ elim (Bool-cases (one_of words_ssdp t)) [
    | inl e ↦ one_of-All (Added cfg) words_ssdp t (words_ssdp-Added cfg) e
    | inr b ↦ elim (Bool-cases (one_of words_mdns t)) [
      | inl e ↦ one_of-All (Added cfg) words_mdns t (words_mdns-Added cfg) e
      | inr c ↦ elim (Bool-cases (one_of words_llmnr t)) [
        | inl e ↦ one_of-All (Added cfg) words_llmnr t (words_llmnr-Added cfg) e
        | inr d ↦ elim (Bool-cases (one_of words_wsd t)) [
          | inl e ↦ one_of-All (Added cfg) words_wsd t (words_wsd-Added cfg) e
          | inr e ↦
              let unknown : is_known t ≡ false = rw (a, b, c, d, e) refl in
              rw (add_protocol_unknown t cfg unknown) unknown
        ]
      ]
    ]
  ]
]

-- What parts make of a configuration: the first unknown part, or the configuration with their protocols
abbrev pub IsChoice : List Bytes → DiscoveryConfig → Option Bytes → DiscoveryResult → Type 0
IsChoice parts cfg none (chosen c) =
    (c.ssdp ≡ (cfg.ssdp || wanted words_ssdp parts))
    × (c.mdns ≡ (cfg.mdns || wanted words_mdns parts))
    × (c.llmnr ≡ (cfg.llmnr || wanted words_llmnr parts))
    × (c.wsd ≡ (cfg.wsd || wanted words_wsd parts))
IsChoice parts cfg (some part) (unknown_protocol p) = p ≡ part
IsChoice parts cfg _ _ = ⊥

or_assoc : (a b c x : Bool) → x ≡ ((a || b) || c) → x ≡ (a || (b || c))
or_assoc true b c x e = e
or_assoc false b c x e = e

part_first :
    (part : Bytes) (parts : List Bytes) (cfg more : DiscoveryConfig) (u : Option Bytes)
    (r : DiscoveryResult)
    → IsAdded (trim_space part) cfg (some more)
    → IsChoice parts more u r
    → IsChoice (part ∷ parts) cfg u r
part_first part parts cfg more none (chosen c) (k, on, a, b, d, e) (h1, h2, h3, h4) = (
  or_assoc cfg.ssdp _ _ c.ssdp (subst (λ x. c.ssdp ≡ (x || wanted words_ssdp parts)) a h1),
  or_assoc cfg.mdns _ _ c.mdns (subst (λ x. c.mdns ≡ (x || wanted words_mdns parts)) b h2),
  or_assoc cfg.llmnr _ _ c.llmnr (subst (λ x. c.llmnr ≡ (x || wanted words_llmnr parts)) d h3),
  or_assoc cfg.wsd _ _ c.wsd (subst (λ x. c.wsd ≡ (x || wanted words_wsd parts)) e h4),
)
part_first part parts cfg more (some q) (unknown_protocol p) added h = h
part_first part parts cfg more none (unknown_protocol p) added h = absurd h
part_first part parts cfg more (some q) (chosen c) added h = absurd h

add_protocols-IsChoice :
    (parts : List Bytes) (cfg : DiscoveryConfig)
    → IsChoice parts cfg (first_unknown parts) (add_protocols parts cfg)
unfolding add_protocols
add_protocols-IsChoice [] cfg =
    (or_false cfg.ssdp, or_false cfg.mdns, or_false cfg.llmnr, or_false cfg.wsd)
add_protocols-IsChoice (part ∷ parts) cfg =
    let added = add_protocol-IsAdded (trim_space part) cfg in
    elim (Option-cases (add_protocol (trim_space part) cfg)) [
      | inl e ↦
          let unknown = subst (IsAdded (trim_space part) cfg) e added in
          rw (e, add_protocols) (rw (unknown) refl)
      | inr (more, e) ↦
          let known = subst (IsAdded (trim_space part) cfg) e added in
          let rest =
            part_first part parts cfg more (first_unknown parts) (add_protocols parts more) known
              (add_protocols-IsChoice parts more) in
          rw (e, add_protocols) (rw (known.0) rest)
    ]

-- On an input that names no protocol off, parseDiscoveryInput refuses the first part that is no word for a
-- protocol, and otherwise chooses exactly the protocols that some part names, by a word for it or one for all.
pub parse_discovery_input-IsChoice :
    (lower : Bytes → Bytes) (raw : Bytes)
    → (length (trim_space (lower raw)) == 0
        || one_of (codes "none" ∷ codes "off" ∷ codes "false" ∷ []) (trim_space (lower raw)))
      ≡ false
    → IsChoice
        (split b',' (trim_space (lower raw)))
        no_discovery
        (first_unknown (split b',' (trim_space (lower raw))))
        (parse_discovery_input lower raw)
unfolding parse_discovery_input
parse_discovery_input-IsChoice lower raw e =
    rw (e) (add_protocols-IsChoice (split b',' (trim_space (lower raw))) no_discovery)
