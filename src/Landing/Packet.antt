-- ===== src/Landing/Packet.antt =====
-- The packet of web/app/src/landing/layer-diagram.tsx: where it is, how far it and the kernel are lit, and the
-- classes of the rings. Times are milliseconds of a cycle; what the source computes with floating point is
-- an exact fraction, and the height of the packet is counted upwards from the centre.
pub mod Falls
pub mod Cycle
use zero_code.Base.{
  ℕ, ◌+◌, ◌-◌, ◌*◌, ◌/◌, Bool, true, false, List, [], ◌∷◌, Option, none, some, if◌then◌else◌, ltb,
  min, ◌==◌, get_or,
}
use zero_code.Base.Text.{Text, codes}
use zero_code.Landing.Layers.{Spot, ring, kernel, ring_start, ring_step, ring_end, kernel_end}

pub record Fraction : Type 0 where
  pub num : ℕ
  pub den : ℕ

-- `smooth(n / d)`, with d * d * d below the line.
unfoldable pub smooth : ℕ → ℕ → Fraction
smooth n d = let c = min n d in record { num = c * c * (3 * d - 2 * c); den = d * d * d }

abbrev pub one : Fraction
one = record { num = 1; den = 1 }

abbrev pub nought : Fraction
nought = record { num = 0; den = 1 }

-- `1 - f`, where f is at most 1.
abbrev pub rest_of : Fraction → Fraction
rest_of f = record { num = f.den - f.num; den = f.den }

-- `HERO_RINGS` and `DETAIL_RINGS`, without the centre.
pub record Rings : Type 0 where
  pub kernel_r : ℕ
  pub radii : List ℕ

abbrev pub hero_rings : Rings
hero_rings = record { kernel_r = 22; radii = 184 ∷ 164 ∷ 144 ∷ 124 ∷ 104 ∷ 84 ∷ 64 ∷ 44 ∷ [] }

abbrev pub detail_rings : Rings
detail_rings = record { kernel_r = 32; radii = 296 ∷ 264 ∷ 232 ∷ 200 ∷ 168 ∷ 136 ∷ 104 ∷ 72 ∷ [] }

-- A way from a height to another, of which n / d has passed.
pub record Glide : Type 0 where
  pub from : ℕ
  pub to : ℕ
  pub n : ℕ
  pub d : ℕ

abbrev pub radius : Rings → ℕ → ℕ
radius g i = get_or g.radii i 0

-- The way between two rings, or from the last one to the edge of the kernel.
abbrev pub ring_glide : Rings → ℕ → ℕ → Glide
ring_glide g i t = record {
  from = radius g i;
  to = if ltb i 7 then radius g (i + 1) else g.kernel_r + 6;
  n = t - ring_start - i * ring_step;
  d = ring_step;
}

unfoldable pub glide_at : Rings → ℕ → Glide
glide_at g t =
    if ltb t ring_start
    then record { from = radius g 0 + 50; to = radius g 0; n = t; d = ring_start }
    else if ltb t ring_end
    then ring_glide g (min 7 ((t - ring_start) / ring_step)) t
    else if ltb t kernel_end
    then record { from = g.kernel_r + 6; to = 0; n = t - ring_end; d = kernel_end - ring_end }
    else record { from = 0; to = 0; n = 1; d = 1 }

-- The height at which a glide is.
unfoldable pub height : Glide → Fraction
unfolding smooth
height w =
    let s = smooth w.n w.d in record { num = w.from * s.den - (w.from - w.to) * s.num; den = s.den }

-- `packetOpacity`: 0.04 of a cycle are 208 milliseconds.
unfoldable pub packet_opacity : Option Spot → ℕ → Fraction
unfolding smooth
packet_opacity (some spot) t = nought
packet_opacity none t =
    if ltb t ring_start
    then smooth t ring_start
    else if ltb t (ring_end + 208)
    then one
    else if ltb t kernel_end
    then rest_of (smooth (t - (ring_end + 208)) (kernel_end - (ring_end + 208)))
    else nought

-- `kernelGlow`: 0.02 of a cycle are 104 milliseconds, 0.10 are 520.
unfoldable pub kernel_glow : Option Spot → ℕ → Fraction
unfolding smooth
kernel_glow (some kernel) t = one
kernel_glow _ t =
    if ltb t (ring_end - 104)
    then nought
    else if ltb t kernel_end
    then smooth (t - (ring_end - 104)) (kernel_end - (ring_end - 104))
    else if ltb t (kernel_end + 520)
    then rest_of (smooth (t - kernel_end) 520)
    else nought

-- The class of a ring, from what is active and whether anything is hovered.
unfoldable pub ring_class : Option Spot → Bool → ℕ → Text
ring_class (some (ring a)) hovered i =
    if a == i
    then codes "active"
    else if ltb i a
    then codes "passed"
    else if hovered
    then codes "dim"
    else []
ring_class (some kernel) hovered i = codes "passed"
ring_class none hovered i = if hovered then codes "dim" else []
