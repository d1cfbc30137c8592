-- ===== src/Config/Strings.antt =====
-- The strings of a section, however deep they stand.
use ranke_db.Base.{[], Text}
use ranke_db.Config.{
  Value, Fields, Elements, string, null, literal, object, array, no_fields, field, no_elements,
  element,
}
use ranke_db.Config.Secrets.{}
use ranke_db.Config.Sections.{}

-- what holds of every string in a section
unfoldable mutual
  pub Each : (Text → Type 0) → Value → Type 0
  Each P (string s) = P s
  Each P null = P []
  Each P (literal t) = Unit
  Each P (object fs) = EachField P fs
  Each P (array es) = EachElement P es

  pub EachField : (Text → Type 0) → Fields → Type 0
  EachField P no_fields = Unit
  EachField P (field k v fs) = Each P v × EachField P fs

  pub EachElement : (Text → Type 0) → Elements → Type 0
  EachElement P no_elements = Unit
  EachElement P (element (object fs) es) = EachField P fs × EachElement P es
  EachElement P (element v es) = EachElement P es

module _ (P Q : Text → Type 0) (f : (t : Text) → P t → Q t) where
  mutual
    unfolding Each

    pub Each-map : (v : Value) → Each P v → Each Q v
    Each-map (string s) h = f s h
    Each-map null h = f [] h
    Each-map (literal t) h = tt
    Each-map (object fs) h = EachField-map fs h
    Each-map (array es) h = EachElement-map es h

    pub EachField-map : (fs : Fields) → EachField P fs → EachField Q fs
    EachField-map no_fields h = tt
    EachField-map (field k v fs) h = (Each-map v h.0, EachField-map fs h.1)

    EachElement-map : (es : Elements) → EachElement P es → EachElement Q es
    EachElement-map no_elements h = tt
    EachElement-map (element (object fs) es) h = (EachField-map fs h.0, EachElement-map es h.1)
    EachElement-map (element v es) h = EachElement-map es h
