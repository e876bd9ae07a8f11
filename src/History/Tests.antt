-- ===== src/History/Tests.antt =====
-- Pruning and queries of a history of two entries.
use noc_iq_contracts.Base.{◌≡◌, refl, [], ◌∷◌, List}
use noc_iq_contracts.Types.{SlaResult}
use noc_iq_contracts.Fixtures.{met_result}
use noc_iq_contracts.History.{page_of}

abbrev entries : List SlaResult
entries = met_result 0 ∷ met_result 5000 ∷ []

-- The sum of offset and limit wraps: the page is empty though the history has an entry there.
page_of_wrapped : page_of 1 4294967295 entries ≡ []
unfolding page_of
page_of_wrapped = refl
