-- ===== src/Landing/Packet/Falls.antt =====
-- The bounds of what is shown of the packet.
use native.Mathlib.Nat.{mul-le-mul_left}
use zero_code.Base.{
  ℕ, ◌+◌, ◌-◌, ◌*◌, ◌≤◌, ◌≡◌, subst, if◌then◌else◌, Bool, true, false, Option, none, some, arith,
  ltb, min,
}
use zero_code.Landing.Layers.{Spot, ring, kernel, ring_start, ring_end, kernel_end}
use zero_code.Landing.Packet.{
  Fraction, one, nought, smooth, rest_of, Glide, height, packet_opacity, kernel_glow,
}

smooth_sum : (n k : ℕ) → n * n * (3 * (n + k) - 2 * n) ≤ (n + k) * (n + k) * (n + k)
smooth_sum n k =
    let e : 3 * (n + k) - 2 * n ≡ n + 3 * k = omega arith in
    let f : n * n * (n + 3 * k) ≤ (n + k) * (n + k) * (n + k) = omega arith in rw e f

smooth_later :
    (n a b : ℕ)
    → n * n * (3 * (n + a + b) - 2 * n) ≤ (n + a) * (n + a) * (3 * (n + a + b) - 2 * (n + a))
smooth_later n a b =
    let e : 3 * (n + a + b) - 2 * n ≡ n + 3 * a + 3 * b = omega arith in
    let f : 3 * (n + a + b) - 2 * (n + a) ≡ n + a + 3 * b = omega arith in
    let g : n * n * (n + 3 * a + 3 * b) ≤ (n + a) * (n + a) * (n + a + 3 * b) = omega arith in
    rw (e, f) g

-- The fraction is at most 1.
pub IsPart : Fraction → Type 0
IsPart f = f.num ≤ f.den

pub smooth-IsPart : (n d : ℕ) → IsPart (smooth n d)
unfolding smooth IsPart
smooth-IsPart n d =
    let c = min n d in
    let e : c + (d - c) ≡ d = omega arith in
    subst (λ x. c * c * (3 * x - 2 * c) ≤ x * x * x) e (smooth_sum c (d - c))

pub smooth-monotone : (n m d : ℕ) → n ≤ m → (smooth n d).num ≤ (smooth m d).num
unfolding smooth
smooth-monotone n m d h =
    let c = min n d in
    let a = min m d - c in
    let e : c + a ≡ min m d = omega arith in
    let f : min m d + (d - min m d) ≡ d = omega arith in
    subst (λ x. c * c * (3 * x - 2 * c) ≤ min m d * min m d * (3 * x - 2 * min m d)) f
      (subst
        (λ y. c * c * (3 * (y + (d - min m d)) - 2 * c) ≤ y * y * (3 * (y + (d - min m d)) - 2 * y))
        e (smooth_later c a (d - min m d)))

rest_of-IsPart : (f : Fraction) → IsPart (rest_of f)
unfolding IsPart
rest_of-IsPart f = omega arith

either-IsPart : (b : Bool) (f g : Fraction) → IsPart f → IsPart g → IsPart (if b then f else g)
either-IsPart true f g p q = p
either-IsPart false f g p q = q

faded-IsPart : (n d : ℕ) → IsPart (rest_of (smooth n d))
faded-IsPart n d = rest_of-IsPart (smooth n d)

lit-IsPart : IsPart one × IsPart nought
unfolding IsPart
lit-IsPart = (omega arith, omega arith)

opacity-IsPart : (t : ℕ) → IsPart (packet_opacity none t)
unfolding packet_opacity
opacity-IsPart t = either-IsPart (ltb t ring_start) _ _ (smooth-IsPart t ring_start) (
    either-IsPart (ltb t (ring_end + 208)) _ _ lit-IsPart.0 (
      either-IsPart (ltb t kernel_end) _ _
        (faded-IsPart (t - (ring_end + 208)) (kernel_end - (ring_end + 208))) lit-IsPart.1))

glow-IsPart : (t : ℕ) → IsPart (kernel_glow none t)
unfolding kernel_glow
glow-IsPart t = either-IsPart (ltb t (ring_end - 104)) _ _ lit-IsPart.1 (
    either-IsPart (ltb t kernel_end) _ _
      (smooth-IsPart (t - (ring_end - 104)) (kernel_end - (ring_end - 104)))
      (either-IsPart (ltb t (kernel_end + 520)) _ _ (faded-IsPart (t - kernel_end) 520)
        lit-IsPart.1))

-- At every moment of the cycle and whatever is hovered, the opacity of the packet and the glow of the kernel
-- are at most 1.
pub packet_opacity-IsPart :
    (spot : Option Spot) (t : ℕ) → IsPart (packet_opacity spot t) × IsPart (kernel_glow spot t)
unfolding packet_opacity kernel_glow
packet_opacity-IsPart none t = (opacity-IsPart t, glow-IsPart t)
packet_opacity-IsPart (some kernel) t = (lit-IsPart.1, lit-IsPart.0)
packet_opacity-IsPart (some (ring i)) t = (lit-IsPart.1, glow-IsPart t)

lower : (x a b : ℕ) → a ≤ b → x - b ≤ x - a
lower x a b h = omega arith

within : (to k s whole : ℕ) → k * s ≤ k * whole → to * whole ≤ (to + k) * whole - (to + k - to) * s
within to k s whole h =
    let e : to + k - to ≡ k = omega arith in
    let f : to * whole ≤ (to + k) * whole - k * s = omega arith in rw e f

-- On a way downwards the packet does not rise, and does not leave the way.
pub height-falls :
    (w : Glide) (m : ℕ)
    → w.to ≤ w.from
    → w.n ≤ m
    → ((height (record w { n = m })).num ≤ (height w).num)
      × (w.to * (height w).den ≤ (height w).num)
      × ((height w).num ≤ w.from * (height w).den)
unfolding height IsPart
height-falls w m h k =
    let way = w.from - w.to in
    let whole : w.to + way ≡ w.from = omega arith in
    let s = smooth w.n w.d in
    (
      lower (w.from * s.den) (way * s.num) (way * (smooth m w.d).num)
          (mul-le-mul_left way (smooth-monotone w.n m w.d k)),
      subst (λ x. w.to * s.den ≤ x * s.den - (x - w.to) * s.num) whole
          (within w.to way s.num s.den (mul-le-mul_left way (smooth-IsPart w.n w.d))),
      omega arith,
    )
