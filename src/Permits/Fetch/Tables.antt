-- ===== src/Permits/Fetch/Tables.antt =====
-- The tables of scripts/fetch_permits.py.
use nobleport.Prelude.{List, [], ◌∷◌}
use nobleport.Python.Text.{Text, codes}

pub record Municipality : Type 0 where
  pub name : Text
  pub type : Text
  pub prefix : Text
  pub portal : Text

abbrev municipality : Text → Text → Text → Text → Municipality
municipality name type prefix portal = record {
  name = name;
  type = type;
  prefix = prefix;
  portal = portal;
}

abbrev pub municipalities : List Municipality
municipalities =
    municipality (codes "Amesbury") (codes "City") (codes "A")
      (codes "https://amesbury.portal.opengov.com")
    ∷ municipality (codes "Andover") (codes "Town") (codes "AN")
        (codes "https://andoverma.portal.opengov.com")
    ∷ municipality (codes "Beverly") (codes "City") (codes "B")
        (codes "https://beverlyma.portal.opengov.com")
    ∷ municipality (codes "Boxford") (codes "Town") (codes "BX")
        (codes "https://www.boxford.org/building")
    ∷ municipality (codes "Danvers") (codes "Town") (codes "D")
        (codes "https://danversma.portal.opengov.com")
    ∷ municipality (codes "Essex") (codes "Town") (codes "E")
        (codes "https://www.essexma.org/building")
    ∷ municipality (codes "Georgetown") (codes "Town") (codes "GT")
        (codes "https://www.georgetownma.gov/building")
    ∷ municipality (codes "Gloucester") (codes "City") (codes "G")
        (codes "https://gloucesterma.portal.opengov.com")
    ∷ municipality (codes "Groveland") (codes "Town") (codes "GV")
        (codes "https://www.grovelandma.com/building")
    ∷ municipality (codes "Hamilton") (codes "Town") (codes "H")
        (codes "https://www.hamiltonma.gov/building")
    ∷ municipality (codes "Haverhill") (codes "City") (codes "HV")
        (codes "https://haverhillma.portal.opengov.com")
    ∷ municipality (codes "Ipswich") (codes "Town") (codes "I")
        (codes "https://ipswichma.portal.opengov.com")
    ∷ municipality (codes "Lawrence") (codes "City") (codes "L")
        (codes "https://lawrencema.portal.opengov.com")
    ∷ municipality (codes "Lynn") (codes "City") (codes "LY")
        (codes "https://lynnma.portal.opengov.com")
    ∷ municipality (codes "Lynnfield") (codes "Town") (codes "LF")
        (codes "https://www.lynnfield.org/building")
    ∷ municipality (codes "Manchester-by-the-Sea") (codes "Town") (codes "MBS")
        (codes "https://www.manchester.ma.us/building")
    ∷ municipality (codes "Marblehead") (codes "Town") (codes "MB")
        (codes "https://marbleheadma.portal.opengov.com")
    ∷ municipality (codes "Merrimac") (codes "Town") (codes "MR")
        (codes "https://www.merrimac01860.info/building")
    ∷ municipality (codes "Methuen") (codes "City") (codes "MT")
        (codes "https://methuenma.portal.opengov.com")
    ∷ municipality (codes "Middleton") (codes "Town") (codes "MD")
        (codes "https://www.middletonma.gov/building")
    ∷ municipality (codes "Nahant") (codes "Town") (codes "NH")
        (codes "https://www.nahant.org/building")
    ∷ municipality (codes "Newbury") (codes "Town") (codes "NB")
        (codes "https://www.townofnewbury.org/building")
    ∷ municipality (codes "Newburyport") (codes "City") (codes "NP")
        (codes "https://newburyportma.portal.opengov.com")
    ∷ municipality (codes "North Andover") (codes "Town") (codes "NA")
        (codes "https://northandoverma.portal.opengov.com")
    ∷ municipality (codes "Peabody") (codes "City") (codes "P")
        (codes "https://peabodyma.portal.opengov.com")
    ∷ municipality (codes "Rockport") (codes "Town") (codes "RK")
        (codes "https://www.rockportma.gov/building")
    ∷ municipality (codes "Rowley") (codes "Town") (codes "RW")
        (codes "https://www.townofrowley.net/building")
    ∷ municipality (codes "Salem") (codes "City") (codes "SL")
        (codes "https://salemma.portal.opengov.com")
    ∷ municipality (codes "Salisbury") (codes "Town") (codes "SB")
        (codes "https://www.salisburyma.gov/building")
    ∷ municipality (codes "Saugus") (codes "Town") (codes "SG")
        (codes "https://saugusma.portal.opengov.com")
    ∷ municipality (codes "Swampscott") (codes "Town") (codes "SW")
        (codes "https://www.swampscottma.gov/building")
    ∷ municipality (codes "Topsfield") (codes "Town") (codes "TF")
        (codes "https://www.topsfield-ma.gov/building")
    ∷ municipality (codes "Wenham") (codes "Town") (codes "WH")
        (codes "https://www.wenhamma.gov/building")
    ∷ municipality (codes "West Newbury") (codes "Town") (codes "WN")
        (codes "https://www.westnewbury.net/building-department")
    ∷ []

abbrev pub permit_types : List Text
permit_types =
    codes "New Construction - Residential"
    ∷ codes "New Construction - Commercial"
    ∷ codes "Addition / Alteration - Residential"
    ∷ codes "Addition / Alteration - Commercial"
    ∷ codes "Renovation - Interior"
    ∷ codes "Renovation - Exterior"
    ∷ codes "Demolition"
    ∷ codes "Foundation"
    ∷ codes "Roofing"
    ∷ codes "Electrical"
    ∷ codes "Plumbing"
    ∷ codes "HVAC / Mechanical"
    ∷ codes "Solar Installation"
    ∷ codes "Deck / Porch"
    ∷ codes "Pool / Spa"
    ∷ codes "Accessory Structure"
    ∷ codes "Change of Use"
    ∷ codes "Sign Permit"
    ∷ codes "Sprinkler System"
    ∷ codes "Elevator"
    ∷ []

abbrev pub contractors : List Text
contractors =
    codes "North Shore Builders"
    ∷ codes "Essex Building Group"
    ∷ codes "Harbor Construction Group"
    ∷ codes "Bay State Contracting"
    ∷ codes "Minuteman Contracting"
    ∷ codes "Freedom Builders LLC"
    ∷ codes "Northshore Renovations"
    ∷ codes "Cape Ann Contractors"
    ∷ codes "Colonial Construction"
    ∷ codes "Yankee Builders Inc."
    ∷ codes "Patriot Construction Co."
    ∷ codes "Seacoast Construction"
    ∷ codes "Atlantic Construction"
    ∷ codes "GC Construction LLC"
    ∷ codes "Premier Home Renovations"
    ∷ codes "Merrimack Valley Builders"
    ∷ codes "Pilgrim Construction"
    ∷ codes "Coastal Builders Inc."
    ∷ codes "New England Build Co."
    ∷ codes "Granite State Construction"
    ∷ []

abbrev pub applicants : List Text
applicants =
    codes "John Smith"
    ∷ codes "Maria Garcia"
    ∷ codes "Robert Johnson"
    ∷ codes "Emily Davis"
    ∷ codes "Michael Brown"
    ∷ codes "Sarah Anderson"
    ∷ codes "David Martinez"
    ∷ codes "Jennifer Wilson"
    ∷ codes "Christopher Lee"
    ∷ codes "Patricia Harris"
    ∷ codes "James Taylor"
    ∷ codes "Linda Thomas"
    ∷ []

abbrev pub street_types : List Text
street_types =
    codes "Main St"
    ∷ codes "Oak Ave"
    ∷ codes "Elm St"
    ∷ codes "Maple Dr"
    ∷ codes "Cedar Rd"
    ∷ codes "Park St"
    ∷ codes "Washington Blvd"
    ∷ codes "Highland Ave"
    ∷ codes "Spring St"
    ∷ codes "Summer St"
    ∷ codes "Winter St"
    ∷ codes "North St"
    ∷ codes "South St"
    ∷ codes "East St"
    ∷ codes "West St"
    ∷ codes "Bridge St"
    ∷ codes "River Rd"
    ∷ codes "Ocean Blvd"
    ∷ codes "Union St"
    ∷ codes "Market St"
    ∷ codes "School St"
    ∷ codes "Church St"
    ∷ codes "Federal St"
    ∷ codes "Liberty St"
    ∷ codes "Pleasant St"
    ∷ codes "Prospect St"
    ∷ codes "Chestnut St"
    ∷ codes "Central Ave"
    ∷ codes "Mill St"
    ∷ codes "Pond Rd"
    ∷ []
