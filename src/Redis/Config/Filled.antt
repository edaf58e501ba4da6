-- ===== src/Redis/Config/Filled.antt =====
-- redis/config.go: the defaults are filled in once.
use go_dev_sdk.Prelude.{
  ℕ, suc, ◌≡◌, ◌≢◌, refl, sym, ap, ◌∙◌, inl, inr, Bool, true, false, ◌&&◌, not, Bool-cases, List,
  [], ◌∷◌, Bytes, eq_bytes, is_empty, to_lower, lower_byte, trim_space, trim_left, is_space, arith,
  if◌then◌else◌,
}
use go_dev_sdk.Prelude.Normal.{normal_idem}
use go_dev_sdk.Prelude.Int.{ℤ, pos, negsuc, is_zero, or_if_not_positive}
use go_dev_sdk.Redis.Config.{
  Config, standalone, sentinel, cluster, has_many, has_none, default_port, with_ports, given_addrs,
  default_mode, set_defaults,
}
use go_dev_sdk.Redis.Config.Addresses.{
  is_complete, AllComplete, with_ports_complete, with_ports_keep,
}

standalone_normal : to_lower (trim_space standalone) ≡ standalone
unfolding to_lower lower_byte trim_space trim_left is_space
standalone_normal = refl

sentinel_normal : to_lower (trim_space sentinel) ≡ sentinel
unfolding to_lower lower_byte trim_space trim_left is_space
sentinel_normal = refl

cluster_normal : to_lower (trim_space cluster) ≡ cluster
unfolding to_lower lower_byte trim_space trim_left is_space
cluster_normal = refl

-- In the form that the defaults give a mode.
abbrev IsNormal : Bytes → Type 0
IsNormal m = (to_lower (trim_space m) ≡ m) × (is_empty m ≡ false)

default_mode-IsNormal : (c : Config) → IsNormal (default_mode c)
unfolding default_mode
default_mode-IsNormal c = elim (Bool-cases (is_empty (to_lower (trim_space c.mode)))) [
  | inr given ↦ rw (given, default_mode) (normal_idem c.mode, given)
  | inl empty ↦ elim (Bool-cases (is_empty c.master_name)) [
    | inr m ↦ rw (empty, m, default_mode) (sentinel_normal, refl)
    | inl m ↦ elim (Bool-cases (has_many c.addrs)) [
      | inl many ↦ rw (empty, m, many, default_mode) (cluster_normal, refl)
      | inr many ↦ rw (empty, m, many, default_mode) (standalone_normal, refl)
    ]
  ]
]

normal_mode : (c : Config) → IsNormal c.mode → default_mode c ≡ c.mode
unfolding default_mode
normal_mode c (n, e) =
    let full : is_empty (to_lower (trim_space c.mode)) ≡ false = ap is_empty n ∙ e in
    rw (full, default_mode) n

timeout_once :
    (v : ℤ) (n : ℕ)
    → or_if_not_positive (or_if_not_positive v (pos (suc n))) (pos (suc n))
      ≡ or_if_not_positive v (pos (suc n))
timeout_once (pos k) n = ground arith
timeout_once (negsuc k) n = ground arith

redirects_once :
    (b : Bool) (v : ℤ)
    → (if b
        then or_if_not_positive (if b then or_if_not_positive v (pos 3) else v) (pos 3)
        else if b
        then or_if_not_positive v (pos 3)
        else v)
      ≡ (if b then or_if_not_positive v (pos 3) else v)
redirects_once true v = timeout_once v 2
redirects_once false v = refl

abbrev port_of : ℤ → Bool → ℤ
port_of v b = if is_zero v && b then default_port else v

port_once : (v : ℤ) (b : Bool) → port_of (port_of v b) b ≡ port_of v b
port_once (pos k) b = ground arith
port_once (negsuc k) b = ground arith

has_none-with_ports :
    (mode : Bytes) (port : ℤ) (l : List Bytes) → has_none (with_ports mode port l) ≡ has_none l
unfolding with_ports
has_none-with_ports mode port [] = refl
has_none-with_ports mode port (a ∷ l) = refl

given_full :
    (c : Config) (port : ℤ) → (has_none (given_addrs c port) && not (is_empty c.host)) ≡ false
unfolding given_addrs
given_full c port = elim (Bool-cases (has_none c.addrs && not (is_empty c.host))) [
  | inl e ↦ rw (e, given_addrs) refl
  | inr e ↦ rw (e, given_addrs) e
]

given_once :
    (d : Config) (port : ℤ)
    → (has_none d.addrs && not (is_empty d.host)) ≡ false
    → given_addrs d port ≡ d.addrs
unfolding given_addrs
given_once d port e = rw (e, given_addrs) refl

-- Every address that is not blank has a colon after the defaults, and a second round of defaults changes
-- nothing.
pub set_defaults_idem :
    (c : Config)
    → AllComplete (set_defaults c).0.addrs
      × ((set_defaults (set_defaults c).0).0 ≡ (set_defaults c).0)
unfolding set_defaults
set_defaults_idem c =
    let d : Config = (set_defaults c).0 in
    let p = port_of c.port (not (is_empty c.host)) in
    let mode : default_mode d ≡ d.mode = normal_mode d (default_mode-IsNormal c) in
    let port : port_of d.port (not (is_empty d.host)) ≡ d.port =
      port_once c.port (not (is_empty c.host)) in
    let complete : AllComplete d.addrs = with_ports_complete (default_mode c) p (given_addrs c p) in
    let full : (has_none d.addrs && not (is_empty d.host)) ≡ false =
      ap (λ (b : Bool). b && not (is_empty c.host))
        (has_none-with_ports (default_mode c) p (given_addrs c p))
      ∙ given_full c p in
    let q = port_of d.port (not (is_empty d.host)) in
    let addrs : with_ports (default_mode d) q (given_addrs d q) ≡ d.addrs =
      ap (with_ports (default_mode d) q) (given_once d q full)
      ∙ with_ports_keep (default_mode d) q d.addrs complete in
    let timeout = timeout_once c.connect_timeout 4999999999 in
    let redirects : (if eq_bytes (default_mode d) cluster
          then or_if_not_positive d.max_redirects (pos 3)
          else d.max_redirects)
        ≡ d.max_redirects =
      ap
        (λ (m : Bytes).
          if eq_bytes m cluster
          then or_if_not_positive d.max_redirects (pos 3)
          else d.max_redirects)
        mode
      ∙ redirects_once (eq_bytes d.mode cluster) c.max_redirects in
    (
      complete,
      λ i. record d {
        mode = mode i;
        port = port i;
        addrs = addrs i;
        connect_timeout = timeout i;
        max_redirects = redirects i;
      },
    )

-- Where the first address of the caller's slice is not blank and has no port, the slice holds another
-- text after the call: the defaults are written into it.
pub set_defaults_writes :
    (c : Config) (a : Bytes) (rest : List Bytes)
    → c.addrs ≡ a ∷ rest
    → is_complete a ≡ false
    → (set_defaults c).1 ≢ c.addrs
unfolding set_defaults
set_defaults_writes c a rest e missing same =
    let p = port_of c.port (not (is_empty c.host)) in
    let filled = with_ports (default_mode c) p (given_addrs c p) in
    let full : has_none c.addrs ≡ false = ap has_none e in
    let kept : filled ≡ a ∷ rest =
      sym (ap (λ (b : Bool). if b then [] else filled) full) ∙ same ∙ e in
    let complete : AllComplete (a ∷ rest) =
      rw kept at (with_ports_complete (default_mode c) p (given_addrs c p)) in
    absurd (cc (complete.0, missing))
