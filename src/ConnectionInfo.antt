-- ===== src/ConnectionInfo.antt =====
-- nntp/connection_info.hpp and nntp/connection_info.cc.
use post2usenet.Common.{ℕ, Bool, true, false, ◌&&◌, [], ◌∷◌, ◌≡◌, ◌↔◌, refl, arith, Bytes, ◌==◌}

pub record ConnectionInfo : Type 0 where
  pub username : Bytes
  pub password : Bytes
  pub serveraddr : Bytes
  pub port : ℕ
  pub tls : Bool

-- operator== of std::string, and of bool.
bytes_eq : Bytes → Bytes → Bool
bytes_eq [] [] = true
bytes_eq [] (d ∷ t) = false
bytes_eq (c ∷ s) [] = false
bytes_eq (c ∷ s) (d ∷ t) = c == d && bytes_eq s t

bool_eq : Bool → Bool → Bool
bool_eq true b = b
bool_eq false true = false
bool_eq false false = true

pub info_eq : ConnectionInfo → ConnectionInfo → Bool
unfolding bytes_eq bool_eq
info_eq first second =
    bytes_eq first.username second.username
    && bytes_eq first.password second.password
    && bytes_eq first.serveraddr second.serveraddr
    && first.port == second.port
    && bool_eq first.tls second.tls

bytes_eq_iff : (s t : Bytes) → (bytes_eq s t ≡ true) ↔ (s ≡ t)
unfolding bytes_eq
bytes_eq_iff [] [] = (λ h. refl, λ h. refl)
bytes_eq_iff [] (d ∷ t) = (λ h. cc, λ h. cc)
bytes_eq_iff (c ∷ s) [] = (λ h. cc, λ h. cc)
bytes_eq_iff (c ∷ s) (d ∷ t) =
    (λ h. ground (arith, bytes_eq_iff s t), λ h. ground (arith, bytes_eq_iff s t))

bool_eq_iff : (a b : Bool) → (bool_eq a b ≡ true) ↔ (a ≡ b)
unfolding bool_eq
bool_eq_iff a b = (λ h. ground arith, λ h. ground arith)

-- operator== holds of two connection infos exactly when they agree in every field.
pub info_eq_iff : (a b : ConnectionInfo) → (info_eq a b ≡ true) ↔ (a ≡ b)
unfolding info_eq
info_eq_iff a b = (
  λ h. ground (
    arith,
    bytes_eq_iff a.username b.username,
    bytes_eq_iff a.password b.password,
    bytes_eq_iff a.serveraddr b.serveraddr,
    bool_eq_iff a.tls b.tls,
  ),
  λ e.
      rw
        (
          e,
          (bytes_eq_iff b.username b.username).1 refl,
          (bytes_eq_iff b.password b.password).1 refl,
          (bytes_eq_iff b.serveraddr b.serveraddr).1 refl,
          (bool_eq_iff b.tls b.tls).1 refl,
        )
        (ground arith),
)
