-- ===== src/Provisioner/Egress/Verdicts.antt =====
-- pkg/provisioner/egress.go: the rendered chain decides about a packet as the policy says. What a
-- line of nft matches is written out here; `in_cidr` tells whether an address lies in a CIDR, and
-- `is_ipv4` whether nft reads a text as one of IPv4, which is all that may follow `ip daddr`. The
-- protocols and ports are taken to be ones that nft reads, as those that Validate lets through are.
use agentry.Base.{
  ℕ, Bool, true, false, Option, none, some, ◌&&◌, ◌||◌, List, [], ◌∷◌, ◌==◌, if◌then◌else◌, Text,
  codes, is_empty, str_eq,
}
use agentry.Provisioner.Egress.{
  EgressRule, NftLine, established, loopback_device, loopback_address, dns, to_address, to_protocol,
  to_ports,
}

pub record Packet : Type 0 where
  pub is_established : Bool
  pub on_loopback : Bool
  pub to_loopback : Bool
  pub address : Text
  pub protocol : Text
  pub port : ℕ

abbrev pub has_port : ℕ → List ℕ → Bool
has_port p [] = false
has_port p (q ∷ qs) = q == p || has_port p qs

module _ (in_cidr : Text → Text → Bool) (k : Packet) where
  -- Whether a line of the chain matches, and its verdict.
  abbrev pub line_matches : NftLine → Bool
  line_matches established = k.is_established
  line_matches loopback_device = k.on_loopback
  line_matches loopback_address = k.to_loopback
  line_matches (dns proto) = str_eq k.protocol proto && k.port == 53
  line_matches (to_address cidr verdict) = in_cidr k.address cidr
  line_matches (to_protocol cidr proto verdict) = in_cidr k.address cidr && str_eq k.protocol proto
  line_matches (to_ports cidr proto ports verdict) =
      in_cidr k.address cidr && (str_eq k.protocol proto && has_port k.port ports)

  abbrev pub line_verdict : NftLine → Text
  line_verdict established = codes "accept"
  line_verdict loopback_device = codes "accept"
  line_verdict loopback_address = codes "accept"
  line_verdict (dns proto) = codes "accept"
  line_verdict (to_address cidr verdict) = verdict
  line_verdict (to_protocol cidr proto verdict) = verdict
  line_verdict (to_ports cidr proto ports verdict) = verdict

  -- The first line that matches decides, and the policy of the chain if none does.
  abbrev pub chain_verdict : Text → List NftLine → Text
  chain_verdict policy [] = policy
  chain_verdict policy (l ∷ ls) =
      let rest = chain_verdict policy ls in if line_matches l then line_verdict l else rest

  -- The policy's own words: what is always allowed, and what a rule names. A rule with ports and no
  -- protocol is for TCP and UDP.
  abbrev pub always_allowed : Bool
  always_allowed =
      k.is_established
      || (k.on_loopback
          || (k.to_loopback
              || ((str_eq k.protocol (codes "udp") || str_eq k.protocol (codes "tcp"))
                  && k.port == 53)))

  abbrev pub protocol_named : EgressRule → Bool
  protocol_named r = elim r.ports [
    | [] ↦ is_empty r.proto || str_eq k.protocol r.proto
    | p ∷ ps ↦
        (if is_empty r.proto
          then str_eq k.protocol (codes "tcp") || str_eq k.protocol (codes "udp")
          else str_eq k.protocol r.proto)
        && has_port k.port (p ∷ ps)
  ]

  abbrev pub names_packet : EgressRule → Bool
  names_packet r = in_cidr k.address r.cidr && protocol_named r

  abbrev pub some_rule_names : List EgressRule → Bool
  some_rule_names [] = false
  some_rule_names (r ∷ rs) = names_packet r || some_rule_names rs

module _ (is_ipv4 : Text → Bool) where
  -- A line that nft takes, and a script: one line that it refuses, and no rule of the script is set.
  abbrev line_loads : NftLine → Bool
  line_loads established = true
  line_loads loopback_device = true
  line_loads loopback_address = true
  line_loads (dns proto) = true
  line_loads (to_address cidr verdict) = is_ipv4 cidr
  line_loads (to_protocol cidr proto verdict) = is_ipv4 cidr
  line_loads (to_ports cidr proto ports verdict) = is_ipv4 cidr

  abbrev pub all_load : List NftLine → Bool
  all_load [] = true
  all_load (l ∷ ls) = line_loads l && all_load ls

  -- The verdict of the script, if nft takes it.
  abbrev pub nft_verdict : (Text → Text → Bool) → Packet → Text → List NftLine → Option Text
  nft_verdict in_cidr k policy ls =
      if all_load ls then some (chain_verdict in_cidr k policy ls) else none

  abbrev pub all_ipv4 : List EgressRule → Bool
  all_ipv4 [] = true
  all_ipv4 (r ∷ rs) = is_ipv4 r.cidr && all_ipv4 rs
