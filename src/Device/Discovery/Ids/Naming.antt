-- ===== src/Device/Discovery/Ids/Naming.antt =====
-- Identities and directory names read back as bus numbers and port chains.
use tryxctl.Prelude.{
  ℕ, ◌<◌, ◌≡◌, ◌≢◌, refl, ap, sym, ◌∙◌, none, some, List, [], ◌∷◌, ◌++◌, append-nil, append_assoc,
  arith, All, All-append,
}
use mathlib.Core.Option.{some-injective}
use tryxctl.Prelude.Lists.{drop}
use tryxctl.Prelude.Text.{to_decimal, split_once, zeros}
use tryxctl.Prelude.Digits.{IsDigit, to_decimal-AreDigits, zeros-AreDigits}
use tryxctl.Prelude.Numbers.{parse_unsigned, parse_unsigned-to_decimal, parse_unsigned-zeros}
use tryxctl.Prelude.Splits.{split_once-separated, split_once_without}
use tryxctl.Device.Discovery.Ids
use tryxctl.Device.Discovery.Ids.{port_chain, stable_id, parse_sysfs_name}

abbrev IsPort : ℕ → Type 0
IsPort port = port < 256

AreDigits-without :
    (sep : ℕ) (text : List ℕ) → sep < 48 → All IsDigit text → All (λ c. c ≢ sep) text
AreDigits-without sep [] small h = tt
AreDigits-without sep (c ∷ cs) small h =
    (ground (arith, small, h.0), AreDigits-without sep cs small h.1)

AreDigits-without_at : (text : List ℕ) → All IsDigit text → All (λ c. c ≢ 64) text
AreDigits-without_at [] h = tt
AreDigits-without_at (c ∷ cs) h = (ground (arith, h.0), AreDigits-without_at cs h.1)

split_dots-last : (part a : List ℕ) → All (λ c. c ≢ 46) a → Ids.split_dots part a ≡ (part ++ a) ∷ []
unfolding Ids.split_dots
split_dots-last part [] h = rw (append-nil part) refl
split_dots-last part (c ∷ a) h =
    ground (arith, h.0, split_dots-last (part ++ (c ∷ [])) a h.1, append_assoc part (c ∷ []) a)

split_dots-append :
    (part a rest : List ℕ)
    → All (λ c. c ≢ 46) a
    → Ids.split_dots part (a ++ (46 ∷ rest)) ≡ (part ++ a) ∷ Ids.split_dots [] rest
unfolding Ids.split_dots
split_dots-append part [] rest h = rw (append-nil part) (ground arith)
split_dots-append part (c ∷ a) rest h =
    ground
      (arith, h.0, split_dots-append (part ++ (c ∷ [])) a rest h.1, append_assoc part (c ∷ []) a)

parse_ports-port_chain :
    (port : ℕ) (ports : List ℕ)
    → All IsPort (port ∷ ports)
    → Ids.parse_ports (Ids.split_dots [] (port_chain (port ∷ ports))) ≡ some (port ∷ ports)
unfolding Ids.parse_ports port_chain Ids.add_port
parse_ports-port_chain port [] h =
    rw
      (split_dots-last [] (to_decimal port)
        (AreDigits-without 46 _ (omega arith) (to_decimal-AreDigits port)))
      (simp (parse_unsigned-to_decimal 256 port h.0) refl)
parse_ports-port_chain port (next ∷ ports) h =
    rw
      (split_dots-append [] (to_decimal port) (port_chain (next ∷ ports))
        (AreDigits-without 46 _ (omega arith) (to_decimal-AreDigits port)))
      (simp (parse_unsigned-to_decimal 256 port h.0, parse_ports-port_chain next ports h.1) refl)

parse_sysfs_name-padded :
    (k bus port : ℕ) (ports : List ℕ)
    → bus < 256
    → All IsPort (port ∷ ports)
    → parse_sysfs_name ((zeros k ++ to_decimal bus) ++ (45 ∷ port_chain (port ∷ ports)))
      ≡ some (bus, port ∷ ports)
unfolding parse_sysfs_name Ids.bus_and_ports Ids.with_ports
parse_sysfs_name-padded k bus port ports h hs =
    let digits =
      All-append IsDigit (zeros k) (to_decimal bus) (zeros-AreDigits k)
        (to_decimal-AreDigits bus) in
    simp
      (
        split_once-separated 45 (zeros k ++ to_decimal bus) (port_chain (port ∷ ports))
            (AreDigits-without 45 _ (omega arith) digits),
        parse_unsigned-zeros 256 k bus h,
        parse_ports-port_chain port ports hs,
      )
      refl

-- The name of a directory below /sys/bus/usb/devices is read back as its bus number and port chain.
pub parse_sysfs_name-port_chain :
    (bus port : ℕ) (ports : List ℕ)
    → bus < 256
    → All IsPort (port ∷ ports)
    → parse_sysfs_name (to_decimal bus ++ (45 ∷ port_chain (port ∷ ports)))
      ≡ some (bus, port ∷ ports)
unfolding zeros
parse_sysfs_name-port_chain bus port ports h hs = parse_sysfs_name-padded 0 bus port ports h hs

parse_sysfs_name-stable_id :
    (bus port : ℕ) (ports : List ℕ) (address : ℕ)
    → bus < 256
    → All IsPort (port ∷ ports)
    → parse_sysfs_name (drop 4 (stable_id bus (port ∷ ports) address)) ≡ some (bus, port ∷ ports)
unfolding stable_id Ids.to_three_digits
parse_sysfs_name-stable_id bus port ports address h hs =
    parse_sysfs_name-padded _ bus port ports h hs

three_digits-AreDigits : (n : ℕ) → All IsDigit (Ids.to_three_digits n)
unfolding Ids.to_three_digits
three_digits-AreDigits n =
    All-append IsDigit (zeros _) (to_decimal n) (zeros-AreDigits _) (to_decimal-AreDigits n)

parse_three_digits : (n : ℕ) → n < 256 → parse_unsigned 256 (Ids.to_three_digits n) ≡ some n
unfolding Ids.to_three_digits
parse_three_digits n h = parse_unsigned-zeros 256 _ n h

-- An identity without ports is no name of a directory, since it has no dash.
parse_sysfs_name-address :
    (bus address : ℕ) → parse_sysfs_name (drop 4 (stable_id bus [] address)) ≡ none
unfolding stable_id parse_sysfs_name Ids.bus_and_ports
parse_sysfs_name-address bus address =
    let dashless = λ (n : ℕ).
      AreDigits-without 45 (Ids.to_three_digits n) (omega arith) (three_digits-AreDigits n) in
    rw
      (split_once_without 45 (Ids.to_three_digits bus ++ (64 ∷ Ids.to_three_digits address)) (
        All-append (λ c. c ≢ 45) (Ids.to_three_digits bus) (64 ∷ Ids.to_three_digits address)
          (dashless bus) (omega arith, dashless address)))
      refl

split_address :
    (bus address : ℕ)
    → split_once (drop 4 (stable_id bus [] address)) (64 ∷ [])
      ≡ some (Ids.to_three_digits bus, Ids.to_three_digits address)
unfolding stable_id
split_address bus address =
    split_once-separated 64 (Ids.to_three_digits bus) (Ids.to_three_digits address)
      (AreDigits-without_at (Ids.to_three_digits bus) (three_digits-AreDigits bus))

three_digits-injective :
    (m n : ℕ) → m < 256 → n < 256 → Ids.to_three_digits m ≡ Ids.to_three_digits n → m ≡ n
three_digits-injective m n h k e =
    some-injective _ _
      (sym (parse_three_digits m h) ∙ ap (parse_unsigned 256) e ∙ parse_three_digits n k)

-- Two places of displays that an identity cannot tell apart: the same bus and ports, and the same
-- address where the ports are not known.
pub record IsSamePlace (bus : ℕ) (ports : List ℕ) (address other : ℕ) (others : List ℕ)
    (changed : ℕ) : Type 0 where
  pub same_bus : bus ≡ other
  pub same_ports : ports ≡ others
  pub same_address : ports ≡ [] → address ≡ changed

-- Displays with the same identity are at the same bus and port chain, whatever their addresses, and
-- at the same address if no port chain is known. Bus numbers, ports and addresses are bytes.
pub stable_id-injective :
    (bus : ℕ) (ports : List ℕ) (address other : ℕ) (others : List ℕ) (changed : ℕ)
    → bus < 256
    → other < 256
    → address < 256
    → changed < 256
    → All IsPort ports
    → All IsPort others
    → stable_id bus ports address ≡ stable_id other others changed
    → IsSamePlace bus ports address other others changed
stable_id-injective bus (port ∷ ports) address other (first ∷ others) changed h k m n hs ks e =
    let same = some-injective _ _ (
      sym (parse_sysfs_name-stable_id bus port ports address h hs)
      ∙ ap (λ (id : List ℕ). parse_sysfs_name (drop 4 id)) e
      ∙ parse_sysfs_name-stable_id other first others changed k ks) in
    record {
      same_bus = ap (λ (p : ℕ × List ℕ). p.0) same;
      same_ports = ap (λ (p : ℕ × List ℕ). p.1) same;
      same_address = λ z. absurd (ground (arith, z));
    }
stable_id-injective bus (port ∷ ports) address other [] changed h k m n hs ks e =
    let clash =
      sym (parse_sysfs_name-stable_id bus port ports address h hs)
      ∙ ap (λ (id : List ℕ). parse_sysfs_name (drop 4 id)) e
      ∙ parse_sysfs_name-address other changed in
    absurd (ground (arith, clash))
stable_id-injective bus [] address other (first ∷ others) changed h k m n hs ks e =
    let clash =
      sym (parse_sysfs_name-address bus address)
      ∙ ap (λ (id : List ℕ). parse_sysfs_name (drop 4 id)) e
      ∙ parse_sysfs_name-stable_id other first others changed k ks in
    absurd (ground (arith, clash))
stable_id-injective bus [] address other [] changed h k m n hs ks e =
    let same = some-injective _ _ (
      sym (split_address bus address)
      ∙ ap (λ (id : List ℕ). split_once (drop 4 id) (64 ∷ [])) e
      ∙ split_address other changed) in
    record {
      same_bus = three_digits-injective bus other h k (ap (λ (p : List ℕ × List ℕ). p.0) same);
      same_ports = refl;
      same_address =
          λ z. three_digits-injective address changed m n (ap (λ (p : List ℕ × List ℕ). p.1) same);
    }
