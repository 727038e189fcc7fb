-- ===== src/Tests.antt =====
-- Concrete runs: the theorems on the properties of each component, applied where their hypotheses hold.
mod OfList
mod OfArray
mod OfSelector
mod OfInterrupt
mod OfWorkerPool
mod OfEPoll
mod OfHandle
mod OfProcess
mod OfGarbage
mod OfIo
mod OfUring
mod OfReturn
mod OfAgreement
mod OfKQueue
