-- ===== src/XmlParser/HarvestReader/Whole.antt =====
-- processHarvestFromFd over the events of a whole document.
use mws.Prelude.Bytes.{Bytes}
