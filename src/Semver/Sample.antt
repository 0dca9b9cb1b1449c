-- ===== src/Semver/Sample.antt =====
-- A small implementation of the interface: six versions, which meet its laws.
use text.Mathlib.TextEquality.{eq_iff}
use osde2e.Prelude.{
  ℕ, ◌≤◌, String, ◌≡◌, refl, Bool, true, false, not, ◌&&◌, Option, none, some, arith, str_eq, ltb,
  if◌then◌else◌, itoa,
}
use osde2e.Semver.{Semver, SemverLaws, dotted}

pub data Sample : Type 0 where
  v4_3_0 v4_3_12 v4_4_0_nightly v4_4_0 v4_4_6 v4_5_0 : Sample

abbrev pub rank : Sample → ℕ
rank v4_3_0 = 0
rank v4_3_12 = 1
rank v4_4_0_nightly = 2
rank v4_4_0 = 3
rank v4_4_6 = 4
rank v4_5_0 = 5

abbrev pub sample_minor : Sample → ℕ
sample_minor v4_3_0 = 3
sample_minor v4_3_12 = 3
sample_minor v4_5_0 = 5
sample_minor _ = 4

abbrev pub sample_patch : Sample → ℕ
sample_patch v4_3_12 = 12
sample_patch v4_4_6 = 6
sample_patch _ = 0

abbrev pub sample_prerelease : Sample → String
sample_prerelease v4_4_0_nightly = "0.nightly-2024-05-22-165653"
sample_prerelease _ = ""

abbrev pub sample_text : Sample → String
sample_text v4_3_0 = "4.3.0"
sample_text v4_3_12 = "4.3.12"
sample_text v4_4_0_nightly = "4.4.0-0.nightly-2024-05-22-165653"
sample_text v4_4_0 = "4.4.0"
sample_text v4_4_6 = "4.4.6"
sample_text v4_5_0 = "4.5.0"

abbrev pub read_sample : String → Option Sample
read_sample s =
    if str_eq s "4.3"
    then some v4_3_0
    else if str_eq s "4.3.0"
    then some v4_3_0
    else if str_eq s "4.3.12"
    then some v4_3_12
    else if str_eq s "4.4.0-0.nightly-2024-05-22-165653"
    then some v4_4_0_nightly
    else if str_eq s "4.4"
    then some v4_4_0
    else if str_eq s "4.4.0"
    then some v4_4_0
    else if str_eq s "4.4.6"
    then some v4_4_6
    else if str_eq s "4.5"
    then some v4_5_0
    else if str_eq s "4.5.0"
    then some v4_5_0
    else none

abbrev pub sample_less : Sample → Sample → Bool
sample_less a b = ltb (rank a) (rank b)

instance abbrev pub sample_semver : Semver Sample
sample_semver = record {
  major = λ _. 4;
  minor = sample_minor;
  patch = sample_patch;
  prerelease = sample_prerelease;
  original = sample_text;
  string = sample_text;
  less_than = sample_less;
  greater_than = λ a b. sample_less b a;
  equal = λ a b. not (sample_less a b) && not (sample_less b a);
  new_version = read_sample;
}

minors : (a b : Sample) → sample_less a b ≡ true → sample_minor a ≤ sample_minor b
minors a b h = ground arith

reads :
    (v : Sample)
    → (w : Sample) × (read_sample (dotted 4 (sample_minor v)) ≡ some w)
      × (◌≡◌ {A = ℕ} 4 4)
      × (sample_minor w ≡ sample_minor v)
      × (sample_patch w ≡ 0)
      × (sample_prerelease w ≡ "")
unfolding itoa
reads v4_3_0 = (v4_3_0, refl, refl, refl, refl, refl)
reads v4_3_12 = (v4_3_0, refl, refl, refl, refl, refl)
reads v4_5_0 = (v4_5_0, refl, refl, refl, refl, refl)
reads _ = (v4_4_0, refl, refl, refl, refl, refl)

apart : (s : String) → sample_prerelease v4_4_0_nightly ≡ s → s ≡ "" → ⊥
apart s e f = ground (arith, eq_iff (sample_prerelease v4_4_0_nightly) "")

same :
    (a b : Sample)
    → sample_minor a ≡ sample_minor b
    → sample_patch a ≡ sample_patch b
    → sample_prerelease a ≡ sample_prerelease b
    → sample_less a b ≡ false
same v4_4_0_nightly v4_4_0 m p e = absurd (apart "" e refl)
same v4_4_0_nightly _ m p e = ground arith
same v4_3_0 _ m p e = ground arith
same v4_3_12 _ m p e = ground arith
same v4_4_0 b m p e = ground arith
same v4_4_6 b m p e = ground arith
same v4_5_0 b m p e = ground arith

pub sample_laws : SemverLaws sample_semver
sample_laws = record {
  greater = λ a b. refl;
  equal_iff = λ a b. refl;
  weak = record { asymmetric = λ a b h. ground arith; incomparable = λ a b c h k. ground arith };
  major_first = λ a b h. omega arith;
  minor_next = λ a b h e. minors a b h;
  reads_dotted = reads;
  same_precedence = λ a b h m p e. same a b m p e;
}
