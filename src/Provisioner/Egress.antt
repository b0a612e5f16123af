-- ===== src/Provisioner/Egress.antt =====
-- pkg/provisioner/egress.go: the filter of what a sandbox may dial. The script for nft is a list of
-- statements and its text; `is_cidr` tells whether net.ParseCIDR accepts a text.
pub mod Verdicts
use agentry.Base.{
  ℕ, zero, suc, ◌+◌, ◌≤◌, ◌<◌, ◌≡◌, Bool, true, false, not, ◌&&◌, ◌||◌, Option, none, some, List,
  [], ◌∷◌, ◌++◌, map, ltb, if◌then◌else◌, Text, codes, is_empty, str_eq, quoted, join, decimal,
}

pub record EgressRule : Type 0 where
  pub cidr : Text
  pub ports : List ℕ
  pub proto : Text

pub record EgressPolicy : Type 0 where
  pub mode : Text
  pub rules : List EgressRule

abbrev pub egress_allow : Text
egress_allow = codes "allow"

abbrev pub egress_deny : Text
egress_deny = codes "deny"

abbrev pub no_rules : List EgressRule → Bool
no_rules [] = true
no_rules (r ∷ rs) = false

-- EgressPolicy.IsZero
unfoldable pub is_zero_policy : EgressPolicy → Bool
is_zero_policy p = is_empty p.mode && no_rules p.rules

unfoldable pub check_ports : List ℕ → Option Text
check_ports [] = none
check_ports (p ∷ ps) =
    let rest = check_ports ps in
    if ltb p 1 || ltb 65535 p
    then some (codes "port " ++ (decimal p ++ codes ": out of range"))
    else rest

module _ (parse_cidr : Text → Option Text) where
  -- EgressRule.validate: the error, if there is one. So is `parse_cidr`'s answer.
  unfoldable pub validate_rule : EgressRule → Option Text
  unfolding check_ports
  validate_rule r =
      if is_empty r.cidr then some (codes "cidr is required") else elim (parse_cidr r.cidr) [
        | some e ↦ some (codes "cidr " ++ (quoted r.cidr ++ (codes ": " ++ e)))
        | none ↦ elim (check_ports r.ports) [
          | some e ↦ some e
          | none ↦
              if is_empty r.proto || (str_eq r.proto (codes "tcp") || str_eq r.proto (codes "udp"))
              then none
              else some (codes "proto " ++ (quoted r.proto ++ codes ": must be tcp, udp, or empty"))
        ]
      ]

  unfoldable pub validate_rules : ℕ → List EgressRule → Option Text
  unfolding validate_rule
  validate_rules i [] = none
  validate_rules i (r ∷ rs) =
      let rest = validate_rules (suc i) rs in
      elim (validate_rule r) [
        | some e ↦ some (codes "egress.rules[" ++ (decimal i ++ (codes "]: " ++ e)))
        | none ↦ rest
      ]

  -- EgressPolicy.Validate
  unfoldable pub validate_policy : EgressPolicy → Option Text
  unfolding validate_rules is_zero_policy
  validate_policy p =
      if is_zero_policy p
      then none
      else if str_eq p.mode egress_allow || str_eq p.mode egress_deny
      then validate_rules 0 p.rules
      else some (codes "egress.mode " ++ (quoted p.mode ++ codes ": must be \"allow\" or \"deny\""))

-- One line of the chain: those that are always there, and those that writeRuleLines emits, for an
-- address, with a protocol, with ports.
pub data NftLine : Type 0 where
  established loopback_device loopback_address : NftLine
  dns : Text → NftLine
  to_address : Text → Text → NftLine
  to_protocol : Text → Text → Text → NftLine
  to_ports : Text → Text → List ℕ → Text → NftLine

abbrev pub line_end : Text
line_end = 10 ∷ []

abbrev pub indent : Text
indent = codes "    ip daddr "

abbrev pub line : Text → Text
line s = s ++ line_end

unfoldable pub print_line : NftLine → Text
print_line established = line (codes "    ct state established,related accept")
print_line loopback_device = line (codes "    oif \"lo\" accept")
print_line loopback_address = line (codes "    ip daddr 127.0.0.0/8 accept")
print_line (dns proto) = line (codes "    " ++ (proto ++ codes " dport 53 accept"))
print_line (to_address cidr verdict) = indent ++ (cidr ++ (codes " " ++ (verdict ++ line_end)))
print_line (to_protocol cidr proto verdict) =
    indent ++ (cidr ++ (codes " meta l4proto " ++ (proto ++ (codes " " ++ (verdict ++ line_end)))))
print_line (to_ports cidr proto ports verdict) =
    indent
    ++ (cidr
        ++ (codes " "
            ++ (proto
                ++ ((codes " dport { " ++ (join (codes ", ") (map decimal ports) ++ codes " }"))
                    ++ (codes " " ++ (verdict ++ line_end))))))

unfoldable pub rule_lines : EgressRule → Text → List NftLine
rule_lines r verdict = elim r.ports [
  | [] ↦
      if is_empty r.proto
      then to_address r.cidr verdict ∷ []
      else to_protocol r.cidr r.proto verdict ∷ []
  | p ∷ ps ↦
      if is_empty r.proto
      then to_ports r.cidr (codes "tcp") (p ∷ ps) verdict
        ∷ to_ports r.cidr (codes "udp") (p ∷ ps) verdict
        ∷ []
      else to_ports r.cidr r.proto (p ∷ ps) verdict ∷ []
]

unfoldable pub all_rule_lines : List EgressRule → Text → List NftLine
unfolding rule_lines
all_rule_lines [] verdict = []
all_rule_lines (r ∷ rs) verdict = rule_lines r verdict ++ all_rule_lines rs verdict

unfoldable pub print_lines : List NftLine → Text
unfolding print_line
print_lines [] = []
print_lines (l ∷ ls) = print_line l ++ print_lines ls

unfoldable pub default_verdict : EgressPolicy → Text
default_verdict p = if str_eq p.mode egress_deny then codes "drop" else codes "accept"

unfoldable pub rule_verdict : EgressPolicy → Text
rule_verdict p = if str_eq p.mode egress_deny then codes "accept" else codes "drop"

unfoldable pub chain_lines : EgressPolicy → List NftLine
chain_lines p =
    established
    ∷ loopback_device
    ∷ loopback_address
    ∷ dns (codes "udp")
    ∷ dns (codes "tcp")
    ∷ all_rule_lines p.rules (rule_verdict p)

-- EgressPolicy.RenderNFT
unfoldable pub render_nft : EgressPolicy → Text
render_nft p =
    if is_zero_policy p
    then []
    else line (codes "flush ruleset")
      ++ (line (codes "table inet ad_sandbox_egress {")
          ++ (line (codes "  chain output {")
              ++ (line (
                    codes "    type filter hook output priority 0; policy "
                    ++ (default_verdict p ++ codes ";"))
                  ++ (print_lines (chain_lines p) ++ (line (codes "  }") ++ line (codes "}"))))))
